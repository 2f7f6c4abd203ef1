-- ===== src/Policy/Opa/Choice.antt =====
-- Which answers of the policy agent allow a request, and that nothing else does.
use agent_identity_lab.Prelude.{
  ◌≡◌, refl, sym, ap, ◌⊎◌, ◌↔◌, inl, inr, ◌≢◌, Option-cases, Bool-cases, Option, none, some, true,
  arith, nat_eq_iff, String, List, [], get_or, lookup,
}
use agent_identity_lab.Json.{
  Json, Dict, Fields, dict_of, nil, end, str, arr, obj, as_str, as_strs, to_strs, truthy, get,
}
use agent_identity_lab.Common.{PolicyDecision, text}
use agent_identity_lab.Exec.{ok}
use agent_identity_lab.Exec.Ensures.{ok-injective}
use agent_identity_lab.Policy.{PolicyInput, PolicyOutput}
use agent_identity_lab.Policy.Python
use agent_identity_lab.Policy.Opa.{
  Opa, OpaReply, http_error, not_json, answer, validated, read_result, read_value, opa_evaluate,
  get_policy_adapter, opa_adapter, python_adapter, adapter_evaluate,
}

-- The answer of the adapter in use is to allow.
abbrev pub Allows : Opa → PolicyInput → Type 0
Allows opa i =
    (out : PolicyOutput) × (adapter_evaluate opa (get_policy_adapter opa) i ≡ ok out)
    × (out.decision ≡ PolicyDecision.allow)

-- A result that says to allow: `allow` counts as true, and what else it says has the types of a
-- `PolicyOutput`.
pub record IsAllowing (result : Dict) : Type 0 where
  pub allow : truthy (get "allow" result) ≡ true
  pub reason : String
  pub reason_text : get_or (lookup "reason" result) (str "Policy allowed") ≡ str reason
  pub scopes : List String
  pub scope_texts : as_strs (get_or (lookup "effective_scopes" result) (arr nil)) ≡ some scopes
  pub obligations : List String
  pub obligation_texts : as_strs (get_or (lookup "obligations" result) (arr nil)) ≡ some obligations
  pub version : String
  pub version_text : get_or (lookup "policy_version" result) (str "opa-0.0.0") ≡ str version

-- The policy agent is asked, and its body has a result that says to allow.
abbrev pub AgentAllows : Opa → PolicyInput → Type 0
AgentAllows opa i =
    (opa.health_status ≡ some 200)
    × ((body : Fields) × (result : Fields) × (opa.query i ≡ answer (obj body))
        × (lookup "result" (dict_of body) ≡ some (obj result))
        × IsAllowing (dict_of result))

as_str-str : (v : Json) (t : String) → as_str v ≡ some t → v ≡ str t
as_str-str (str s) t h = cc h
as_str-str _ t h = absurd (cc h)

validated-allow :
    (d : PolicyDecision) (reason : Option String) (scopes obligations : Option (List String))
    (version : Option String) (out : PolicyOutput)
    → validated d reason scopes obligations version ≡ ok out
    → (out.decision ≡ d)
      × ((r : String) × (reason ≡ some r))
      × ((ss : List String) × (scopes ≡ some ss))
      × ((os : List String) × (obligations ≡ some os))
      × ((v : String) × (version ≡ some v))
validated-allow d (some r) (some ss) (some os) (some v) out h = (
  sym (ap (λ o. o.decision) (ok-injective _ out h)),
  (r, refl),
  (ss, refl),
  (os, refl),
  (v, refl),
)
validated-allow d none ss os v out h = absurd (cc h)
validated-allow d (some r) none os v out h = absurd (cc h)
validated-allow d (some r) (some ss) none v out h = absurd (cc h)
validated-allow d (some r) (some ss) (some os) none out h = absurd (cc h)

read_result-IsAllowing :
    (result : Dict) (out : PolicyOutput)
    → read_result result ≡ ok out
    → out.decision ≡ PolicyDecision.allow
    → IsAllowing result
unfolding read_result
read_result-IsAllowing result out h allowed = elim (Bool-cases (truthy (get "allow" result))) [
  | inr denies ↦
      let (denied, _, _, _, _) = validated-allow _ _ _ _ _ out (rw denies at h) in
      absurd (cc (denied, allowed))
  | inl allows ↦
      let (_, (reason, r), (scopes, s), (obligations, o), (version, v)) =
        validated-allow _ _ _ _ _ out (rw allows at h) in
      record {
        allow = allows;
        reason = reason;
        reason_text = as_str-str _ reason r;
        scopes = scopes;
        scope_texts = s;
        obligations = obligations;
        obligation_texts = o;
        version = version;
        version_text = as_str-str _ version v;
      }
]

IsAllowing-allows :
    (result : Dict)
    → IsAllowing result
    → (out : PolicyOutput) × (read_result result ≡ ok out) × (out.decision ≡ PolicyDecision.allow)
unfolding read_result
IsAllowing-allows result a = (
  record {
    decision = PolicyDecision.allow;
    reason = text a.reason;
    effective_scopes = a.scopes;
    obligations = a.obligations;
    policy_version = a.version;
  },
  rw (a.allow, a.reason_text, a.scope_texts, a.obligation_texts, a.version_text) refl,
  refl,
)

-- An empty result says nothing.
nothing_allowed :
    (out : PolicyOutput) → read_result [] ≡ ok out → out.decision ≢ PolicyDecision.allow
unfolding read_result lookup truthy to_strs
nothing_allowed out h allowed =
    let refused : PolicyDecision.deny ≡ out.decision =
      ap (λ o. o.decision) (ok-injective _ out h) in
    cc (refused, allowed)

value_allows :
    (o : Option Json) (out : PolicyOutput)
    → read_value (get_or o (obj end)) ≡ ok out
    → out.decision ≡ PolicyDecision.allow
    → (result : Fields) × (o ≡ some (obj result)) × IsAllowing (dict_of result)
value_allows none out h allowed = absurd (nothing_allowed out h allowed)
value_allows (some (obj result)) out h allowed =
    (result, refl, read_result-IsAllowing (dict_of result) out h allowed)
value_allows (some v) out h allowed = absurd (cc h)

reply_allows :
    (reply : OpaReply) (out : PolicyOutput)
    → opa_evaluate reply ≡ ok out
    → out.decision ≡ PolicyDecision.allow
    → (body : Fields) × (result : Fields) × (reply ≡ answer (obj body))
      × (lookup "result" (dict_of body) ≡ some (obj result))
      × IsAllowing (dict_of result)
unfolding opa_evaluate
reply_allows (http_error exc) out h d = absurd (ground arith)
reply_allows not_json out h d = absurd (cc h)
reply_allows (answer (obj body)) out h d =
    let (result, there, allowing) = value_allows (lookup "result" (dict_of body)) out h d in
    (body, result, refl, there, allowing)
reply_allows (answer v) out h d = absurd (cc h)

adapter-cases :
    (opa : Opa)
    → ((get_policy_adapter opa ≡ opa_adapter) × (opa.health_status ≡ some 200))
      ⊎ ((get_policy_adapter opa ≡ python_adapter) × (opa.health_status ≢ some 200))
unfolding get_policy_adapter
adapter-cases opa = elim (Option-cases opa.health_status) [
  | inl failed ↦ inr (rw failed refl, λ e. cc)
  | inr (status, e) ↦ rw e (ground (arith, nat_eq_iff status 200))
]

-- The adapter in use allows a request exactly when the policy agent is healthy and the body of its
-- answer has a result that says to allow, with fields of the types of a `PolicyOutput`, or the
-- policy agent is not healthy and the Python evaluator allows.
pub adapter_evaluate-allow_iff :
    (opa : Opa) (i : PolicyInput)
    → Allows opa i ↔ (
        AgentAllows opa i
        ⊎ ((opa.health_status ≢ some 200) × ((Python.evaluate i).decision ≡ PolicyDecision.allow)))
unfolding adapter_evaluate opa_evaluate
adapter_evaluate-allow_iff opa i = elim (adapter-cases opa) [
  | inl (chosen, healthy) ↦ rw chosen (
    λ (out, answered, allowed). inl (healthy, reply_allows (opa.query i) out answered allowed),
    λ h. elim h [
      | inl (_, (body, result, e, there, allowing)) ↦
          let (out, read, allowed) = IsAllowing-allows (dict_of result) allowing in
          (out, rw (e, there) read, allowed)
      | inr (ill, _) ↦ absurd (ill healthy)
    ],
  )
  | inr (chosen, ill) ↦ rw chosen (
    λ (out, answered, allowed). inr (ill, cc),
    λ h. elim h [
      | inl (healthy, _) ↦ absurd (ill healthy)
      | inr (_, allowed) ↦ (Python.evaluate i, refl, allowed)
    ],
  )
]
