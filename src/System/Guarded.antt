-- ===== src/System/Guarded.antt =====
-- What reaches the MCP server through the gateway and the Identity API together.
use agent_identity_lab.Prelude.{
  ℕ, String, ◌≡◌, refl, sym, ap, ◌∙◌, ◌⊎◌, inl, inr, Option, none, some, List, [], ◌∷◌, ◌++◌,
  lookup, get_or,
}
use agent_identity_lab.Json.{Json, Dict, str, get, truthy, null}
use agent_identity_lab.Common.{Settings, Message, PolicyDecision, allow, deny, decision_str}
use agent_identity_lab.Exec.{Error, http, Result, ok, err}
use agent_identity_lab.Exec.Ensures.{ok-injective}
use agent_identity_lab.Policy.Opa.{Opa}
use agent_identity_lab.Tokens.{Jwt}
use agent_identity_lab.Models.{AgentSession}
use agent_identity_lab.Attestation.{Primitives}
use agent_identity_lab.Database.{World, Environment, find_session}
use agent_identity_lab.Database.Transaction.{with_db}
use agent_identity_lab.Identity.Authorization.{AuthorizeResponse, authorize}
use agent_identity_lab.Identity.Authorization.Refused.{TokenFor, serve-authorize_revoked}
use agent_identity_lab.Identity.Requests.{Request, serve}
use agent_identity_lab.Gateway.{
  GatewayRequest, object, Outgoing, McpReply, Network, Log, bearer_of, credentials_of,
  proxy_mcp_request,
}
use agent_identity_lab.Gateway.Forwarded.{IsForwarded, proxy_mcp_request-cases}
use agent_identity_lab.Gateway.Headers.{uninjected}
use agent_identity_lab.System.{response_fields, reply_of, question, network_at}

allowed_by : (d : PolicyDecision) → str (decision_str d) ≡ str "allow" → d ≡ allow
allowed_by allow h = refl
allowed_by deny h = absurd (cc h)

-- Only an answer of the API that says allow reads as one.
reply_of-allow :
    (shown : Message → String) (r : Result AuthorizeResponse) (status : ℕ) (reply : Dict)
    → reply_of shown r ≡ object status reply
    → get "decision" reply ≡ str "allow"
    → (answer : AuthorizeResponse) × (r ≡ ok answer)
      × (answer.decision ≡ allow)
      × (get "downstream_credentials" reply ≡ null)
unfolding reply_of response_fields lookup
reply_of-allow shown (ok answer) status reply h allowed =
    let same : response_fields shown answer ≡ reply = cc h in
    (
      answer,
      refl,
      allowed_by answer.decision (ap (get "decision") same ∙ allowed),
      ap (get "downstream_credentials") (sym same),
    )
reply_of-allow shown (err (http code detail)) status reply h allowed =
    let same : ("detail", str (shown detail)) ∷ [] ≡ reply = cc h in
    let unsaid : null ≡ str "allow" = ap (get "decision") same ∙ allowed in absurd (cc unsaid)
reply_of-allow shown (err e) status reply h allowed = absurd (cc h)

module _ (settings : Settings) (env : Environment) (jwt : Jwt) (opa : Opa)
    (shown : Message → String) where
  abbrev network_of : World → Network → Network
  network_of = network_at settings env jwt opa shown

  -- The Identity API in the state `w` has allowed the request, and what is sent shows no token.
  pub record IsGuarded (w : World) (request : GatewayRequest) (tool operation : String)
      (before after : Log) : Type 0 where
    pub answer : AuthorizeResponse
    pub answered :
        (with_db
          (authorize settings env jwt opa (
            question
              (bearer_of (get_or (lookup "authorization" request.headers) ""))
              tool
              operation))
          w).0
        ≡ ok answer
    pub allowed : answer.decision ≡ allow
    pub sent : Outgoing
    pub logged : after ≡ before ++ sent ∷ []
    pub no_token : lookup "authorization" sent.headers ≡ none

  no_credentials :
      (network : Network) (value : Json) (credentials : Option Dict)
      → value ≡ null
      → credentials_of settings jwt network value ≡ ok credentials
      → credentials ≡ none
  unfolding credentials_of truthy
  no_credentials network value credentials nothing h =
      sym (ok-injective none credentials (rw nothing at h))

  forwarded-IsGuarded :
      (w : World) (network : Network) (now : ℕ) (request : GatewayRequest) (tool operation : String)
      (before after : Log) (r : Result McpReply)
      → IsForwarded settings jwt (network_of w network) now request tool operation before r after
      → IsGuarded w request tool operation before after
  unfolding network_at
  forwarded-IsGuarded w network now request tool operation before after r f =
      let a = f.admitted in
      let (answer, answered, allowed, nothing) =
        reply_of-allow shown _ a.status a.reply a.asked a.allowed in
      let bare =
        no_credentials (network_of w network) _ f.credentials nothing a.credentials_given in
      record {
        answer = answer;
        answered = rw a.given answered;
        allowed = allowed;
        sent = f.sent;
        logged = f.logged;
        no_token =
            f.kept "authorization" refl
            ∙ (ap (lookup "authorization") (
                  sym (
                    uninjected settings jwt (network_of w network) f.base f.headers
                      (rw bare at f.injected)))
                ∙ f.stripped.no_token);
      }

  -- In front of the Identity API, a request to the gateway either ends in an error and nothing is
  -- sent to the MCP server, or the API, on its committed tables, has answered allow for the bearer
  -- token, and exactly one request is sent, which has no authorization header.
  pub proxy_mcp_request-IsGuarded :
      (w : World) (network : Network) (now : ℕ) (request : GatewayRequest) (tool operation : String)
      (log : Log)
      → let p =
          proxy_mcp_request settings jwt
            (network_at settings env jwt opa shown w network)
            now
            request
            tool
            operation
            log in
        ((e : Error) × (p.0 ≡ err e) × (p.1 ≡ log)) ⊎ IsGuarded w request tool operation log p.1
  proxy_mcp_request-IsGuarded w network now request tool operation log =
      elim (proxy_mcp_request-cases settings jwt (network_of w network) now request tool operation
        log) [
          | inl failed ↦ inl failed
          | inr f ↦ inr (forwarded-IsGuarded w network now request tool operation log _ _ f)
        ]

  -- Once a session is revoked in the committed tables, then after any requests to the Identity API, a
  -- request to the gateway whose bearer token the API's validator lets through, with a jti that
  -- is not empty and is the session's id, ends in an error, and nothing is sent to the MCP server.
  pub proxy_mcp_request-revoked :
      (prims : Primitives) (rs : List Request) (w : World) (id t : ℕ) (s : AgentSession)
      → find_session id w.durable ≡ some s
      → s.revoked_at ≡ some t
      → (network : Network) (now : ℕ) (request : GatewayRequest) (tool operation : String)
        (log : Log)
      → TokenFor settings env jwt opa
          (question (bearer_of (get_or (lookup "authorization" request.headers) "")) tool operation)
          (serve settings env prims jwt rs w).draws
          id
      → let p =
          proxy_mcp_request settings jwt
            (network_at settings env jwt opa shown (serve settings env prims jwt rs w) network)
            now
            request
            tool
            operation
            log in
        (e : Error) × (p.0 ≡ err e) × (p.1 ≡ log)
  proxy_mcp_request-revoked prims rs w id t s found gone network now request tool operation log
        token =
      let v = serve settings env prims jwt rs w in
      elim (proxy_mcp_request-IsGuarded v network now request tool operation log) [
        | inl failed ↦ failed
        | inr g ↦
            let refused =
              serve-authorize_revoked settings env jwt opa prims rs w id t s found gone _ token in
            absurd (cc (refused, g.answered))
      ]
