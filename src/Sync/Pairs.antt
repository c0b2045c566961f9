-- ===== src/Sync/Pairs.antt =====
-- Two threads, and no other inside: what a move of one of them does.
use fantastic_octo_meme.Prelude.{ℕ, ◌≡◌, ◌≢◌, ◌∙◌, ap, arith}
use fantastic_octo_meme.Sync.{Threads, act}

module _ {P M : Type 0} (local : M → ℕ → P → ℕ × P) (out : P) (a b : ℕ) (ne : a ≢ b) where
  -- The word, the places of the two threads, and where all others are.
  abbrev pub Pair : Threads P → ℕ → P → P → Type 0
  Pair s w p q =
      (s.word ≡ w) × (s.at a ≡ p) × (s.at b ≡ q) × ((t : ℕ) → t ≢ a → t ≢ b → s.at t ≡ out)

  pub move_first :
      (m : M) (s : Threads P) (w : ℕ) (p q : P)
      → Pair s w p q
      → Pair (act local m a s) (local m w p).0 (local m w p).1 q
  move_first m s w p q (hw, hp, hq, rest) = (
    ground (arith, hw, hp),
    ground (arith, hw, hp),
    ground (arith, hq),
    λ t x y. ground (arith, rest t),
  )

  pub move_second :
      (m : M) (s : Threads P) (w : ℕ) (p q : P)
      → Pair s w p q
      → Pair (act local m b s) (local m w q).0 p (local m w q).1
  move_second m s w p q (hw, hp, hq, rest) = (
    ground (arith, hw, hq),
    ground (arith, hp),
    ground (arith, hw, hq),
    λ t x y. ground (arith, rest t),
  )

  -- The same, for the outcome of the move.
  pub goes_first :
      (m : M) (s : Threads P) (w w' : ℕ) (p p' q : P)
      → local m w p ≡ (w', p')
      → Pair s w p q
      → Pair (act local m a s) w' p' q
  goes_first m s w w' p p' q e h =
      let r = move_first m s w p q h in (r.0 ∙ ap (λ x. x.0) e, r.1 ∙ ap (λ x. x.1) e, r.2, r.3)

  pub goes_second :
      (m : M) (s : Threads P) (w w' : ℕ) (p q q' : P)
      → local m w q ≡ (w', q')
      → Pair s w p q
      → Pair (act local m b s) w' p q'
  goes_second m s w w' p q q' e h =
      let r = move_second m s w p q h in (r.0 ∙ ap (λ x. x.0) e, r.1, r.2 ∙ ap (λ x. x.1) e, r.3)
