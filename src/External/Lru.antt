-- ===== src/External/Lru.antt =====
-- `LruCache` of the crate `lru`, in the view of `peek`: what a key maps to, recency aside. An
-- insertion may evict other keys; which ones is left open.
use teecryptor.Prelude.{ℕ, ◌≡◌, ◌≢◌, Option, none, some}

pub record Lru (K V C : Type 0) : Type 0 where
  pub new : ℕ → C
  pub peek : K → C → Option V
  pub get : K → C → Option V × C
  pub put : K → V → C → C
  pub pop : K → C → C
  pub peek-new : (k : K) (n : ℕ) → peek k (new n) ≡ none
  pub get_lem : (k : K) (c : C) → (get k c).0 ≡ peek k c
  pub peek-get : (j k : K) (c : C) → peek j (get k c).1 ≡ peek j c
  pub peek-put_self : (k : K) (v : V) (c : C) → peek k (put k v c) ≡ some v
  pub peek-put_ne :
      (j k : K) (v w : V) (c : C) → j ≢ k → peek j (put k v c) ≡ some w → peek j c ≡ some w
  pub peek-pop_self : (k : K) (c : C) → peek k (pop k c) ≡ none
  pub peek-pop_ne : (j k : K) (c : C) → j ≢ k → peek j (pop k c) ≡ peek j c
