-- ===== src/Outbound/DnsCaller/Closes.antt =====
-- outbound/caller.go: what `DNSCaller.Call` does to its connection.
use ts_dns.Common.{
  ℕ, ◌+◌, ◌≤◌, ◌≡◌, refl, ◌⊎◌, inl, inr, sym, Bool, true, false, not, ◌&&◌, Option, none, some,
  List, [], ◌∷◌, ◌++◌, arith, codes, eq_bytes, is_some, All, Bool-cases, Ensures,
}
use mathlib.Core.Path.{subst}
use ts_dns.Dns.{Msg}
use ts_dns.Outbound.DnsCaller.{
  DnsCaller, ConnLib, Act, opened, write_deadline, wrote, read_deadline, read, closed, deadline,
  get_conn, exchange_on, call,
}

-- A deadline is met by the caller's timeout and by the context.
abbrev pub IsDue : ℕ → ℕ → Option ℕ → ℕ → Type 0
IsDue timeout now ctx by = (by ≤ now + timeout) × Ensures (λ d. by ≤ d) ctx

deadline-IsDue :
    (timeout now : ℕ) (ctx : Option ℕ) → IsDue timeout now ctx (deadline timeout now ctx)
unfolding deadline
deadline-IsDue timeout now none = (omega arith, tt)
deadline-IsDue timeout now (some d) = ground arith

module _ {P C : Type 0} (lib : ConnLib P C) where
  -- An act on a connection that is open, before a deadline where it sets one.
  abbrev pub IsUse : C → (ℕ → Type 0) → (ℕ → Type 0) → Act C → Type 0
  IsUse c W R (opened d) = ⊥
  IsUse c W R (write_deadline d by) = (d ≡ c) × W by
  IsUse c W R (wrote d m) = d ≡ c
  IsUse c W R (read_deadline d by) = (d ≡ c) × R by
  IsUse c W R (read d) = d ≡ c
  IsUse c W R (closed d) = ⊥

  -- A connection that is opened, used and closed.
  abbrev pub IsUsed : C → (ℕ → Type 0) → (ℕ → Type 0) → List (Act C) → Type 0
  IsUsed c W R acts =
      (uses : List (Act C)) × (acts ≡ opened c ∷ uses ++ closed c ∷ []) × All (IsUse c W R) uses

  exchange_on-IsUsed :
      (c : C) (write_by read_by : ℕ) (request : Msg) (W R : ℕ → Type 0)
      → W write_by
      → R read_by
      → IsUsed c W R (exchange_on lib c write_by read_by request).1
  unfolding exchange_on
  exchange_on-IsUsed c write_by read_by request W R w r =
      elim (Bool-cases (lib.set_write_deadline c write_by)) [
        | inr fails ↦ rw fails (write_deadline c write_by ∷ [], refl, ((refl, w), tt))
        | inl ok1 ↦ elim (Bool-cases (lib.write_msg c request)) [
          | inr fails ↦
              rw (ok1, fails)
                (write_deadline c write_by ∷ wrote c request ∷ [], refl, ((refl, w), (refl, tt)))
          | inl ok2 ↦ elim (Bool-cases (lib.set_read_deadline c read_by)) [
            | inr fails ↦
                rw (ok1, ok2, fails)
                  (
                    write_deadline c write_by ∷ wrote c request ∷ read_deadline c read_by ∷ [],
                    refl,
                    ((refl, w), (refl, ((refl, r), tt))),
                  )
            | inl ok3 ↦
                rw (ok1, ok2, ok3)
                  (
                    write_deadline c write_by
                        ∷ wrote c request
                        ∷ read_deadline c read_by
                        ∷ read c
                        ∷ [],
                    refl,
                    ((refl, w), (refl, ((refl, r), (refl, tt)))),
                  )
          ]
        ]
      ]

  module _ (caller : DnsCaller P) (written reading : ℕ) (ctx : Option ℕ) (request : Msg) where
    abbrev outcome : Bool → Option C → Option Msg × List (Act C)
    outcome true o = (lib.exchange caller.server request, [])
    outcome false none = (none, [])
    outcome false (some c) =
        exchange_on lib c (deadline caller.timeout written ctx)
          (deadline caller.timeout reading ctx) request

    outcome-IsUsed :
        (b : Bool) (o : Option C)
        → get_conn lib caller ≡ o
        → ((outcome b o).1 ≡ [])
          ⊎ ((c : C) × (get_conn lib caller ≡ some c)
              × IsUsed c
                  (IsDue caller.timeout written ctx)
                  (IsDue caller.timeout reading ctx)
                  (outcome b o).1)
    outcome-IsUsed true o e = inl refl
    outcome-IsUsed false none e = inl refl
    outcome-IsUsed false (some c) e = inr (
      c,
      e,
      exchange_on-IsUsed c (deadline caller.timeout written ctx)
          (deadline caller.timeout reading ctx) request (IsDue caller.timeout written ctx)
          (IsDue caller.timeout reading ctx) (deadline-IsDue caller.timeout written ctx)
          (deadline-IsDue caller.timeout reading ctx),
    )

    call-outcome :
        (b : Bool) (o : Option C)
        → (eq_bytes caller.net (codes "udp") && not (is_some caller.proxy)) ≡ b
        → get_conn lib caller ≡ o
        → call lib caller written reading ctx request ≡ outcome b o
    unfolding call
    call-outcome true o u e = rw u refl
    call-outcome false none u e = rw (u, e) refl
    call-outcome false (some c) u e = rw (u, e) refl

  -- `Call` either opens no connection, or opens one, uses only that one, with deadlines that are
  -- no later than the caller's timeout and the context's deadline, and at last closes it, on every
  -- path, also where setting a deadline, writing or reading fails; it never closes twice.
  pub call-IsUsed :
      (caller : DnsCaller P) (written reading : ℕ) (ctx : Option ℕ) (request : Msg)
      → let acts = (call lib caller written reading ctx request).1 in
        (acts ≡ [])
        ⊎ ((c : C) × (get_conn lib caller ≡ some c)
            × IsUsed c (IsDue caller.timeout written ctx) (IsDue caller.timeout reading ctx) acts)
  call-IsUsed caller written reading ctx request =
      let b = eq_bytes caller.net (codes "udp") && not (is_some caller.proxy) in
      subst
        (λ r.
          (r.1 ≡ [])
          ⊎ ((c : C) × (get_conn lib caller ≡ some c)
              × IsUsed c (IsDue caller.timeout written ctx) (IsDue caller.timeout reading ctx) r.1))
        (sym (call-outcome caller written reading ctx request b (get_conn lib caller) refl refl))
        (outcome-IsUsed caller written reading ctx request b (get_conn lib caller) refl)
