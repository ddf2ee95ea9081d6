-- ===== src/Metrics/LabelLaws.antt =====
-- The labels of a sample come from sets that are fixed at the start.
use mathlib.Core.List.{Memᴰ}
use mathlib.Core.List.Memᴰ.{head, tail}
use teecryptor.Prelude.{
  ℕ, ◌≡◌, refl, sym, ◌⊎◌, inl, inr, Bool, true, false, Option, none, some, List, [], ◌∷◌, map,
  String, ◌==◌, Bool-cases,
}
use teecryptor.Boot.Numbers.{to_string}
use teecryptor.Decrypt.{EncryptionType, as_str, bool, u8, u16, u32, u64, u128, address}
use teecryptor.Metrics.Labels.{
  Label, static, rendered, DecryptLabels, new_chain_labels, find_label, label, acp_label,
  width_label, outcome_label, is_success, DecryptSample, observe_decrypt, decrypt_routes, contains,
  decrypt_sample, timed, track_metrics,
}

-- The values of `host_chain_id`: one per served chain, and two for the rest.
abbrev pub chain_values : (served : List ℕ) → List Label
chain_values served = static "unknown" ∷ static "other" ∷ map (λ id. rendered (to_string id)) served

abbrev pub acp_values : List String
acp_values = "unknown" ∷ "present" ∷ "absent" ∷ []

abbrev pub width_values : List String
width_values = "unknown" ∷ "bool" ∷ "u8" ∷ "u16" ∷ "u32" ∷ "u64" ∷ "u128" ∷ "address" ∷ []

find_label-cases :
    (served : List ℕ) (id : ℕ)
    → Memᴰ
        (find_label (new_chain_labels served) id)
        (static "other" ∷ map (λ i. rendered (to_string i)) served)
unfolding find_label new_chain_labels
find_label-cases [] id = head refl
find_label-cases (i ∷ is) id = elim (Bool-cases (i == id)) [
  | inl found ↦ rw found (tail (head refl))
  | inr passed ↦ rw passed (insert (find_label-cases is id))
]
  where
    insert : {a b c : Label} {xs : List Label} → Memᴰ a (b ∷ xs) → Memᴰ a (b ∷ c ∷ xs)
    insert (head e) = head e
    insert (tail m) = tail (tail m)

label-chain_values :
    (served : List ℕ) (id : Option ℕ)
    → Memᴰ (label (new_chain_labels served) id) (chain_values served)
unfolding label
label-chain_values served none = head refl
label-chain_values served (some id) = tail (find_label-cases served id)

acp_label-acp_values : (presented : Option Bool) → Memᴰ (acp_label presented) acp_values
unfolding acp_label
acp_label-acp_values none = head refl
acp_label-acp_values (some true) = tail (head refl)
acp_label-acp_values (some false) = tail (tail (head refl))

width_label-width_values : (ty : Option EncryptionType) → Memᴰ (width_label ty) width_values
unfolding width_label as_str
width_label-width_values none = head refl
width_label-width_values (some bool) = tail (head refl)
width_label-width_values (some u8) = tail (tail (head refl))
width_label-width_values (some u16) = tail (tail (tail (head refl)))
width_label-width_values (some u32) = tail (tail (tail (tail (head refl))))
width_label-width_values (some u64) = tail (tail (tail (tail (tail (head refl)))))
width_label-width_values (some u128) = tail (tail (tail (tail (tail (tail (head refl))))))
width_label-width_values (some address) = tail (tail (tail (tail (tail (tail (tail (head refl)))))))

outcome_label-cases :
    (code : Option String) (status : ℕ)
    → (code ≡ some (outcome_label code status))
      ⊎ Memᴰ (outcome_label code status) ("ok" ∷ "rejected" ∷ [])
unfolding outcome_label
outcome_label-cases (some c) status = inl refl
outcome_label-cases none status = elim (Bool-cases (is_success status)) [
  | inl done ↦ rw done (inr (head refl))
  | inr failed ↦ rw failed (inr (tail (head refl)))
]

timed-cases :
    (route : String) (elapsed : ℕ) (ty : Option EncryptionType)
    → ((ty ≡ none) × (timed route elapsed ty ≡ none))
      ⊎ ((t : EncryptionType) × (ty ≡ some t)
          × (timed route elapsed ty ≡ some (route, width_label ty, elapsed)))
unfolding timed width_label
timed-cases route elapsed none = inl (refl, refl)
timed-cases route elapsed (some t) = inr (t, refl, refl)

-- What the samples of the decrypt path carry: a route of the path, values of the sets above, an
-- outcome that is the code of the response or one of two constants, and a time just where the type
-- is known.
pub record IsBounded (served : List ℕ) (code : Option String) (ty : Option EncryptionType)
    (elapsed : ℕ) (p : DecryptSample × Option (String × String × ℕ)) : Type 0 where
  pub route : contains decrypt_routes p.0.route ≡ true
  pub chain : Memᴰ p.0.host_chain (chain_values served)
  pub acp : Memᴰ p.0.acp acp_values
  pub width : Memᴰ p.0.encryption_type width_values
  pub outcome : (code ≡ some p.0.outcome) ⊎ Memᴰ p.0.outcome ("ok" ∷ "rejected" ∷ [])
  pub timed :
      ((ty ≡ none) × (p.1 ≡ none))
      ⊎ ((t : EncryptionType) × (ty ≡ some t)
          × (p.1 ≡ some (p.0.route, p.0.encryption_type, elapsed)))

observe_decrypt-IsBounded :
    (served : List ℕ) (route : String) (labels : DecryptLabels) (code : Option String)
    (status elapsed : ℕ)
    → contains decrypt_routes route ≡ true
    → IsBounded served code labels.encryption_type elapsed
        (observe_decrypt (new_chain_labels served) route labels code status elapsed)
unfolding observe_decrypt
observe_decrypt-IsBounded served route labels code status elapsed on_path = record {
  route = on_path;
  chain = label-chain_values served labels.host_chain_id;
  acp = acp_label-acp_values labels.acp_presented;
  width = width_label-width_values labels.encryption_type;
  outcome = outcome_label-cases code status;
  timed = timed-cases route elapsed labels.encryption_type;
}

-- Whatever a request carries, a sample that is recorded for its response on the decrypt path has a
-- route of that path, a host chain that is one of the served ones, "other" or "unknown", and a
-- permission state and a type from fixed lists; its outcome is the machine code of the response, "ok"
-- or "rejected"; and the time is recorded, under the same route and type, exactly where the type is known.
pub track_metrics-IsBounded :
    (served : List ℕ) (matched : Option String) (method : String) (labels : DecryptLabels)
    (code : Option String) (status elapsed : ℕ) (p : DecryptSample × Option (String × String × ℕ))
    → (track_metrics (new_chain_labels served) matched method labels code status elapsed).1 ≡ some p
    → IsBounded served code labels.encryption_type elapsed p
unfolding track_metrics decrypt_sample
track_metrics-IsBounded served none method labels code status elapsed p e = cc
track_metrics-IsBounded served (some route) method labels code status elapsed p e =
    elim (Bool-cases (contains decrypt_routes route)) [
      | inl on_path ↦
          let bounded = observe_decrypt-IsBounded served route labels code status elapsed on_path in
          let recorded : some
                (observe_decrypt (new_chain_labels served) route labels code status elapsed)
              ≡ some p =
            rw on_path at e in
          let same : observe_decrypt (new_chain_labels served) route labels code status elapsed
              ≡ p =
            cc in
          rw (sym same) bounded
      | inr off_path ↦ let nothing : none ≡ some p = rw off_path at e in cc
    ]
