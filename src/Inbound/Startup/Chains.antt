-- ===== src/Inbound/Startup/Chains.antt =====
-- What a chain of six fallible steps leaves, and items of which a list has at most one.
use ts_dns.Common.{
  ◌≤◌, ◌≡◌, refl, inl, inr, sym, ap, ◌∙◌, Bool, true, Option, none, some, List, [], ◌∷◌, arith,
  tally, In, ◌>>=◌, some_inj, none_some,
}

>>=-inv :
    {A B : Type 0} (o : Option A) (f : A → Option B) (r : B)
    → (o >>= f) ≡ some r
    → (a : A) × (o ≡ some a) × (f a ≡ some r)
>>=-inv none f r h = none_some h
>>=-inv (some a) f r h = (a, refl, h)

-- Six fallible steps, of which the last two follow from the fourth.
pub chain :
    {A B C D E F R : Type 0} (o1 : Option A) (o2 : Option B) (o3 : Option C) (o4 : Option D)
    (o5 : D → Option E) (o6 : D → Option F) (k : A → B → C → D → E → F → R) (r : R)
    → (o1 >>= λ a.
        o2 >>= λ b. o3 >>= λ c. o4 >>= λ d. o5 d >>= λ e. o6 d >>= λ f. some (k a b c d e f))
      ≡ some r
    → (d : D) × (e : E) × (o4 ≡ some d)
      × (o5 d ≡ some e)
      × (a : A) × (b : B) × (c : C) × (f : F) × (k a b c d e f ≡ r)
chain none o2 o3 o4 o5 o6 k r h = none_some h
chain (some a) none o3 o4 o5 o6 k r h = none_some h
chain (some a) (some b) none o4 o5 o6 k r h = none_some h
chain (some a) (some b) (some c) none o5 o6 k r h = none_some h
chain (some a) (some b) (some c) (some d) o5 o6 k r h =
    let (e, he, h') = >>=-inv (o5 d) (λ e. o6 d >>= λ f. some (k a b c d e f)) r h in
    let (f, hf, h'') = >>=-inv (o6 d) (λ f. some (k a b c d e f)) r h' in
    (d, e, refl, he, a, b, c, f, some_inj h'')

-- Two items of which only one can be.
pub tally-In :
    {A : Type 0} (p : A → Bool) (x : A) (xs : List A) → In x xs → p x ≡ true → 1 ≤ tally p xs
tally-In p x [] i h = absurd i
tally-In p x (y ∷ ys) (inl e) h = rw (sym (ap p e), h) (omega arith)
tally-In p x (y ∷ ys) (inr i) h = ground (arith, tally-In p x ys i h)

not_twice :
    {A : Type 0} (p : A → Bool) (y z : A) (zs : List A)
    → tally p (z ∷ zs) ≤ 1
    → p z ≡ true
    → In y zs
    → p y ≡ true
    → ⊥
not_twice p y z zs t first j hy = ground (arith, tally-In p y zs j hy)

pub unique :
    {A : Type 0} (p : A → Bool) (x y : A) (xs : List A)
    → tally p xs ≤ 1
    → In x xs
    → In y xs
    → p x ≡ true
    → p y ≡ true
    → x ≡ y
unique p x y [] t i j hx hy = absurd i
unique p x y (z ∷ zs) t (inl e) (inl d) hx hy = e ∙ sym d
unique p x y (z ∷ zs) t (inl e) (inr j) hx hy =
    absurd (not_twice p y z zs t (sym (ap p e) ∙ hx) j hy)
unique p x y (z ∷ zs) t (inr i) (inl d) hx hy =
    absurd (not_twice p x z zs t (sym (ap p d) ∙ hy) i hx)
unique p x y (z ∷ zs) t (inr i) (inr j) hx hy = unique p x y zs (ground arith) i j hx hy
