-- ===== src/External/AssocLru.antt =====
-- An instance of the interface `Lru`: an association list that keeps its latest entries.
use teecryptor.Prelude.{
  ℕ, zero, suc, ◌-◌, ◌≡◌, ◌≢◌, ◌↔◌, refl, sym, ◌∙◌, inl, inr, Bool, true, false, Option, none, some,
  List, [], ◌∷◌, arith, if◌then◌else◌, Bool-cases,
}
use teecryptor.External.Lru.{Lru}

module _ {K : Type 0} (eq : K → K → Bool) (eq_iff : (a b : K) → (eq a b ≡ true) ↔ (a ≡ b)) where
  pub eq_refl : (k : K) → eq k k ≡ true
  eq_refl k = (eq_iff k k).1 refl

  eq-ne : (a b : K) → a ≢ b → eq a b ≡ false
  eq-ne a b ne = elim (Bool-cases (eq a b)) [
    | inl same ↦ absurd (ne ((eq_iff a b).0 same))
    | inr other ↦ other
  ]

-- At most `cap` entries, the latest first.
abbrev pub Table : Type 0 → Type 0 → Type 0
Table K V = ℕ × List (K × V)

module _ {K V : Type 0} (eq : K → K → Bool) (eq_iff : (a b : K) → (eq a b ≡ true) ↔ (a ≡ b)) where
  -- the latest entry of a key
  abbrev lookup : K → List (K × V) → Option V
  lookup wanted (entry ∷ entries) =
      if eq entry.0 wanted then some entry.1 else lookup wanted entries
  lookup wanted [] = none

  abbrev without : K → List (K × V) → List (K × V)
  without dropped (entry ∷ entries) =
      let kept = without dropped entries in if eq entry.0 dropped then kept else entry ∷ kept
  without dropped [] = []

  abbrev first : ℕ → List (K × V) → List (K × V)
  first zero l = []
  first (suc n) [] = []
  first (suc n) (x ∷ l) = x ∷ first n l

  pub lookup-without_self : (k : K) (l : List (K × V)) → lookup k (without k l) ≡ none
  lookup-without_self k [] = refl
  lookup-without_self k ((j, v) ∷ l) = ground (arith, lookup-without_self k l)

  pub lookup-without_ne : (j k : K) (l : List (K × V)) → j ≢ k → lookup j (without k l) ≡ lookup j l
  lookup-without_ne j k [] ne = refl
  lookup-without_ne j k ((i, v) ∷ l) ne =
      ground (arith, lookup-without_ne j k l ne, eq_iff i k, eq_iff i j)

  lookup-first :
      (n : ℕ) (j : K) (l : List (K × V)) (w : V)
      → lookup j (first n l) ≡ some w
      → lookup j l ≡ some w
  lookup-first zero j l w e = cc
  lookup-first (suc n) j [] w e = cc
  lookup-first (suc n) j ((i, v) ∷ l) w e = ground (arith, lookup-first n j l w)

  abbrev put : K → V → Table K V → Table K V
  put k v (cap, l) = (cap, (k, v) ∷ first (cap - 1) (without k l))

  pub put_ne :
      (j k : K) (v w : V) (c : Table K V)
      → j ≢ k
      → lookup j (put k v c).1 ≡ some w
      → lookup j c.1 ≡ some w
  put_ne j k v w (cap, l) ne e =
      let swapped = eq-ne eq eq_iff k j (λ p. ne (sym p)) in
      sym (lookup-without_ne j k l ne) ∙ lookup-first (cap - 1) j (without k l) w (rw swapped at e)

  abbrev pub assoc_lru : Lru K V (Table K V)
  assoc_lru = record {
    new = λ cap. (cap, []);
    peek = λ k c. lookup k c.1;
    get = λ k c. (lookup k c.1, c);
    put = put;
    pop = λ k c. (c.0, without k c.1);
    peek-new = λ k n. refl;
    get_lem = λ k c. refl;
    peek-get = λ j k c. refl;
    peek-put_self = λ k v c. rw (eq_refl eq eq_iff k);
    peek-put_ne = put_ne;
    peek-pop_self = λ k c. lookup-without_self k c.1;
    peek-pop_ne = λ j k c ne. lookup-without_ne j k c.1 ne;
  }
