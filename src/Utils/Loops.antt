-- ===== src/Utils/Loops.antt =====
-- The source's loop `for i := 0; i < len(v); i++ { if … { v = append(v[:i], v[i+1:]...); i-- } }`,
-- which deletes in place while it walks.
use ts_dns.Common.{ℕ, zero, suc, ◌≤◌, ◌≡◌, refl, Bool, true, false, not, none, some, append-nil}
use ts_dns.Common.{List, [], ◌∷◌, ◌++◌, arith, if◌then◌else◌, length, get_elem?, take, drop, keep}
use ts_dns.Common.{get_elem?-append_end, get_elem?-append_mid, take-append_length, drop-append_mid}
use ts_dns.Common.{append-snoc, length-snoc}

module _ {ℓ} {A : Type ℓ} (test : A → Bool) where
  -- One round each for the fuel. At fuel 0 the loop would stop early.
  delete_loop : ℕ → ℕ → List A → List A
  delete_loop zero i xs = xs
  delete_loop (suc f) i xs = elim (get_elem? xs i) [
    | none ↦ xs
    | some x ↦
        let shorter = delete_loop f i (take i xs ++ drop (suc i) xs) in
        let next = delete_loop f (suc i) xs in if test x then shorter else next
  ]

  -- The whole loop. Each round either deletes an item or passes one, so that the number of items
  -- is fuel enough.
  unfoldable pub delete_where : List A → List A
  unfolding delete_loop
  delete_where xs = delete_loop (length xs) 0 xs

  -- At position `i` the loop has settled the first `i` items, and filters the rest.
  delete_loop_lem :
      (f : ℕ) (done rest : List A)
      → length rest ≤ f
      → delete_loop f (length done) (done ++ rest) ≡ done ++ keep (λ x. not (test x)) rest
  unfolding delete_loop
  delete_loop_lem zero done [] h = refl
  delete_loop_lem zero done (x ∷ rest) h = elim h [ ]
  delete_loop_lem (suc f) done [] h = rw (get_elem?-append_end done, delete_loop, append-nil)
  delete_loop_lem (suc f) done (x ∷ rest) h =
      rw
        (
          get_elem?-append_mid done x rest,
          delete_loop,
          take-append_length done (x ∷ rest),
          drop-append_mid done x rest,
        )
        (step (test x) (delete_loop_lem f done rest (omega arith))
          (delete_loop_lem f (done ++ x ∷ []) rest (omega arith)))
    where
      step :
          (b : Bool)
          → delete_loop f (length done) (done ++ rest) ≡ done ++ keep (λ y. not (test y)) rest
          → delete_loop f (length (done ++ x ∷ [])) ((done ++ x ∷ []) ++ rest)
            ≡ (done ++ x ∷ []) ++ keep (λ y. not (test y)) rest
          → (if b
              then delete_loop f (length done) (done ++ rest)
              else delete_loop f (suc (length done)) (done ++ x ∷ rest))
            ≡ done
              ++ (if not b
                  then x ∷ keep (λ y. not (test y)) rest
                  else keep (λ y. not (test y)) rest)
      step true p q = p
      step false p q =
          rw
            (
              length-snoc done x,
              append-snoc done x rest,
              append-snoc done x (keep (λ y. not (test y)) rest),
            )
            at q

  -- The loop that deletes in place is the filter.
  pub delete_where-keep : (xs : List A) → delete_where xs ≡ keep (λ x. not (test x)) xs
  unfolding delete_where
  delete_where-keep xs = delete_loop_lem (length xs) [] xs (omega arith)
