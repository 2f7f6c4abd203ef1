-- ===== src/Gateway/Headers.antt =====
-- The headers that reach the MCP server.
use agent_identity_lab.Prelude.{
  String, ◌≡◌, refl, sym, ap, ◌∙◌, false, ◌==◌, none, List, get_or, pop, lookup, lookup-put,
  lookup-pop, arith,
}
use agent_identity_lab.Common.{Settings}
use agent_identity_lab.Exec.{ok}
use agent_identity_lab.Exec.Ensures.{ok-injective}
use agent_identity_lab.Tokens.{Jwt}
use agent_identity_lab.Gateway.{GatewayRequest, Network, inject, stripped_headers, trace, outgoing}

module _ (settings : Settings) (jwt : Jwt) (network : Network) where
  pub uninjected :
      (base headers : List (String × String))
      → inject settings jwt network none base ≡ ok headers
      → base ≡ headers
  unfolding inject
  uninjected base headers h = ok-injective base headers h

module _ (settings : Settings) (jwt : Jwt) (network : Network) (request : GatewayRequest) where
  stripped-lookup :
      (lookup "authorization" (stripped_headers settings jwt network request) ≡ none)
      × (lookup "host" (stripped_headers settings jwt network request) ≡ none)
  unfolding stripped_headers
  stripped-lookup = (
    lookup-pop "authorization" "authorization" (pop "host" request.headers),
    lookup-pop "authorization" "host" (pop "host" request.headers)
        ∙ lookup-pop "host" "host" request.headers,
  )

  pub trace-lookup :
      (name : String) (headers : List (String × String))
      → ("X-Trace-ID" == name) ≡ false
      → lookup name (trace settings jwt network request headers) ≡ lookup name headers
  unfolding trace
  trace-lookup name headers other = ground (
    arith,
    other,
    lookup-put "X-Trace-ID" name (get_or (lookup "x-agent-trace-id" request.headers) "") headers,
  )

  -- Where no credentials come with the decision, the request that is sent has no `authorization`
  -- header, so the client's session token stays at the gateway, and no `host` header.
  pub outgoing-no_token :
      (tool_id operation : String) (headers : List (String × String))
      → inject settings jwt network none (stripped_headers settings jwt network request)
        ≡ ok headers
      → (lookup "authorization"
            (outgoing settings jwt network request tool_id operation headers).headers
          ≡ none)
        × (lookup "host" (outgoing settings jwt network request tool_id operation headers).headers
            ≡ none)
  unfolding inject outgoing
  outgoing-no_token tool_id operation headers h =
      let same = ok-injective (stripped_headers settings jwt network request) headers h in
      let (token, host) = stripped-lookup in
      (
        trace-lookup "authorization" headers refl
            ∙ (ap (lookup "authorization") (sym same) ∙ token),
        trace-lookup "host" headers refl ∙ (ap (lookup "host") (sym same) ∙ host),
      )
