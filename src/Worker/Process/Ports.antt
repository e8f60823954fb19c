-- ===== src/Worker/Process/Ports.antt =====
-- The port that `choose_available_port` of src/worker/mod.rs picks.
use mathlib.Core.Path.{subst}
use distributed_processing_e.Base.{
  ℕ, zero, suc, ◌+◌, ◌^◌, ◌≤◌, ◌<◌, ◌≡◌, ◌⊎◌, inl, inr, refl, Bool, true, false, arith, Bool-cases,
  ltb,
}
use distributed_processing_e.Worker.Process.{saturating_add_u16, try_ports, choose_available_port}

le_cases : (m n : ℕ) → m ≤ n → (m ≡ n) ⊎ (suc m ≤ n)
le_cases m n h = elim (Bool-cases (ltb m n)) [
  | inl less ↦ inr (ground arith)
  | inr not_less ↦ inl (ground arith)
]

module _ (can_bind : ℕ → Bool) (start_port : ℕ) where
  -- The first of the tried ports that can be bound, or the start port where none can.
  abbrev pub Picks : ℕ → ℕ → ℕ → Type 0
  Picks offset count port =
      ((o : ℕ) × (offset ≤ o)
        × (o < offset + count)
        × (port ≡ saturating_add_u16 start_port o)
        × (can_bind port ≡ true)
        × ((i : ℕ) → offset ≤ i → i < o → can_bind (saturating_add_u16 start_port i) ≡ false))
      ⊎ ((port ≡ start_port)
          × ((i : ℕ)
              → offset ≤ i
              → i < offset + count
              → can_bind (saturating_add_u16 start_port i) ≡ false))

  try_ports-Picks :
      (offset count : ℕ) → Picks offset count (try_ports can_bind start_port offset count)
  unfolding try_ports
  try_ports-Picks offset zero = inr (refl, λ i low high. absurd (omega arith))
  try_ports-Picks offset (suc count) =
      elim (Bool-cases (can_bind (saturating_add_u16 start_port offset))) [
        | inl free ↦
            rw free (
              inl
                (offset, omega arith, omega arith, refl, free, λ i low high. absurd (omega arith)))
        | inr taken ↦ rw taken (elim (try_ports-Picks (suc offset) count) [
          | inl (o, low, high, port, free, before) ↦ inl (
            o,
            omega arith,
            omega arith,
            port,
            free,
            λ i l h. elim (le_cases offset i l) [
              | inl same ↦
                  subst (λ i. can_bind (saturating_add_u16 start_port i) ≡ false) same taken
              | inr later ↦ before i later h
            ],
          )
          | inr (port, none_free) ↦ inr (
            port,
            λ i l h. elim (le_cases offset i l) [
              | inl same ↦
                  subst (λ i. can_bind (saturating_add_u16 start_port i) ≡ false) same taken
              | inr later ↦ none_free i later (omega arith)
            ],
          )
        ])
      ]

  Picks-bounds :
      (count port : ℕ)
      → 0 < count
      → start_port < 2 ^ 16
      → Picks 0 count port
      → (start_port ≤ port) × (port < start_port + count) × (port < 2 ^ 16)
  Picks-bounds count port some_tried h (inl (o, low, high, at, free, rest)) = ground arith
  Picks-bounds count port some_tried h (inr (same, rest)) = omega arith

  -- The chosen port is the first of the fifty from the start port on, cut off at 65535, that can be
  -- bound, and the start port itself where none of them can. It is a port of 16 bits, not below the
  -- start port, and less than fifty above it.
  pub choose_available_port_bounds :
      start_port < 2 ^ 16
      → (let port = choose_available_port can_bind start_port in
          Picks 0 50 port × (start_port ≤ port) × (port < start_port + 50) × (port < 2 ^ 16))
  unfolding choose_available_port
  choose_available_port_bounds h =
      let picks = try_ports-Picks 0 50 in
      let (low, near, high) = Picks-bounds 50 _ (omega arith) h picks in (picks, low, near, high)
