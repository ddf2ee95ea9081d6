-- ===== src/Boot/PolicyLaws.antt =====
-- A baked policy that is accepted agrees with itself, and names the canonical address book.
use teecryptor.Prelude.{
  ◌≡◌, refl, inl, inr, Bool, true, false, ◌&&◌, none, String, Result, ok, >>=-eq-ok, ok_inj,
  err-ne-ok, ok_or, map_err, Bytes, Bool-cases,
}
use mathlib.Core.Path.{subst}
use teecryptor.Boot.Policy.{
  unknown_env, bad_toml, EnvPolicy, Document, BakedEnv, cofhe_address_book, of_document, is_some,
  is_empty, eq_bool, check_keys, validate, parse_policy, for_env, select,
}

eq_bool_iff : (a b : Bool) → eq_bool a b ≡ true → a ≡ b
eq_bool_iff true true e = refl
eq_bool_iff false false e = refl
eq_bool_iff true false e = cc
eq_bool_iff false true e = cc

validate-ok :
    (policy out : EnvPolicy)
    → validate policy ≡ ok out
    → (policy ≡ out) × (policy.enable_commitment_verification ≡ is_some policy.commitment)
unfolding validate
validate-ok policy out e =
    elim (Bool-cases (eq_bool policy.enable_commitment_verification (is_some policy.commitment))) [
      | inl same ↦
          let (u, keys, e₁) = >>=-eq-ok (check_keys policy.acl.task_manager_ids) _ (rw same at e) in
          elim (Bool-cases (policy.require_permit && is_empty policy.acl.task_manager_ids)) [
            | inl open_ ↦ absurd (err-ne-ok (rw open_ at e₁))
            | inr full ↦ (ok_inj (rw full at e₁), eq_bool_iff _ _ same)
          ]
      | inr other ↦ absurd (err-ne-ok (rw other at e))
    ]

-- An accepted policy: its switch says whether it has a commitment block, and its address book is the
-- one that is compiled in, with no id for a chain that it does not list.
abbrev pub IsBaked : EnvPolicy → Type 0
IsBaked policy =
    (policy.enable_commitment_verification ≡ is_some policy.commitment)
    × (policy.acl.address_book ≡ cofhe_address_book)
    × (policy.acl.default_task_manager_id ≡ none)

pub for_env-IsBaked :
    (from_str : Bytes → Result String Document) (include_str : BakedEnv → Bytes) (env : Bytes)
    (policy : EnvPolicy)
    → for_env from_str include_str env ≡ ok policy
    → IsBaked policy
unfolding for_env parse_policy of_document
for_env-IsBaked from_str include_str env policy e =
    let (baked, known, e₁) = >>=-eq-ok (ok_or unknown_env (select env)) _ e in
    let (doc, read, e₂) = >>=-eq-ok (map_err bad_toml (from_str (include_str baked))) _ e₁ in
    let (same, agrees) = validate-ok (of_document doc) policy e₂ in
    subst IsBaked same (agrees, refl, refl)
