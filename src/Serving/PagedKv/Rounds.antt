-- ===== src/Serving/PagedKv/Rounds.antt =====
-- What the loop over the tokens leaves in one cell of a storage, when no page is twice in the table.
use native.Mathlib.Nat.{div-add-mod, mod-lt}
use sched_forge.Base.{
  ℕ, ◌+◌, ◌*◌, ◌/◌, ◌%◌, ◌<◌, ◌≡◌, ◌≢◌, refl, ap, ◌∙◌, Option, none, some, Option-cases, List,
  length, get_elem?, inl, inr, arith,
}
use sched_forge.Base.Loops.{for_range-keep, for_range-leaves}
use sched_forge.Serving.PagedKv.{PagedKvConfig, source_row}
use sched_forge.Serving.PagedKv.Offsets.{Cell, IsCell, offset_of}
use sched_forge.Serving.PagedKv.Stores.{
  plane_token, plane_tokens, token-keeps, token-stores, length-plane_token,
}

-- A table that lists no page twice.
abbrev pub IsOnce : List ℕ → Type 0
IsOnce table = (i j p : ℕ) → get_elem? table i ≡ some p → get_elem? table j ≡ some p → i ≡ j

-- Where the elements of a logical token stand.
pub record IsAt (c : PagedKvConfig) (width : ℕ) (table : List ℕ) (t : ℕ) (x : Cell) : Type 0 where
  pub cell : IsCell c width x
  pub tokens_pos : 0 < c.page_tokens
  pub page_eq : get_elem? table (t / c.page_tokens) ≡ some x.page
  pub token_eq : t % c.page_tokens ≡ x.token

-- The page and the row of a token give the token.
same_token :
    (c : PagedKvConfig) (width : ℕ) (table : List ℕ) (t i : ℕ) (x : Cell) {page : ℕ}
    → IsOnce table
    → IsAt c width table t x
    → get_elem? table (i / c.page_tokens) ≡ some page
    → page ≡ x.page
    → i % c.page_tokens ≡ x.token
    → i ≡ t
same_token c width table t i x once at e p r =
    let q = once (i / c.page_tokens) (t / c.page_tokens) x.page (e ∙ ap some p) at.page_eq in
    let m : c.page_tokens * (i / c.page_tokens) ≡ c.page_tokens * (t / c.page_tokens) =
      ap (λ k. c.page_tokens * k) q in
    omega (arith, div-add-mod i c.page_tokens, div-add-mod t c.page_tokens, m, at.token_eq, r)

module _ {F : Type 0} (c : PagedKvConfig) (width : ℕ) (table : List ℕ) (t : ℕ) (x : Cell)
    (once : IsOnce table) (at : IsAt c width table t x) where
  -- The round of any other token leaves the cell alone.
  round-keeps :
      (used : ℕ) (source : List F) (tokens i : ℕ) {r : Option F}
      → used + i ≢ t
      → (s : List F) → get_elem? s (offset_of c width x) ≡ r
      → get_elem?
          (elim (get_elem? table ((used + i) / c.page_tokens)) [
            | none ↦ s
            | some page ↦ plane_token c width source tokens i page ((used + i) % c.page_tokens) s
          ])
          (offset_of c width x)
        ≡ r
  round-keeps used source tokens i ne s q =
      elim (Option-cases (get_elem? table ((used + i) / c.page_tokens))) [
        | inl e ↦ rw e q
        | inr (page, e) ↦ rw e (
            token-keeps c width x at.cell source tokens i page ((used + i) % c.page_tokens)
              (mod-lt (used + i) at.tokens_pos)
              (λ b h d same. ne (
                same_token c width table t (used + i) x once at e (ap (λ (y : Cell). y.page) same)
                  (ap (λ (y : Cell). y.token) same)))
              s q)
      ]

  pub tokens-keep :
      (used : ℕ) (source : List F) (tokens : ℕ) (s : List F)
      → t < used
      → get_elem? (plane_tokens c used table width source tokens s) (offset_of c width x)
        ≡ get_elem? s (offset_of c width x)
  tokens-keep used source tokens s h =
      for_range-keep
        (λ (now : List F). get_elem? now (offset_of c width x) ≡ get_elem? s (offset_of c width x))
        tokens _ (λ i l. round-keeps used source tokens i (omega arith)) s refl

  pub tokens-store :
      (used k : ℕ) (source : List F) (tokens : ℕ) {v : F} (s : List F)
      → used + k ≡ t
      → k < tokens
      → offset_of c width x < length s
      → get_elem? source (source_row c tokens k x.batch x.head width + x.dim) ≡ some v
      → get_elem? (plane_tokens c used table width source tokens s) (offset_of c width x) ≡ some v
  tokens-store used k source tokens {v} s e l h hv =
      for_range-leaves (λ (now : List F). length now ≡ length s)
        (λ (now : List F). get_elem? now (offset_of c width x) ≡ some v) tokens k _ l
        (λ i li now p. elim (Option-cases (get_elem? table ((used + i) / c.page_tokens))) [
          | inl o ↦ rw o p
          | inr (page, o) ↦ rw o (
              length-plane_token c width x at.cell source tokens i page ((used + i) % c.page_tokens)
                (length s) now p)
        ])
        (λ now p.
          rw
            (
              ap (λ n. get_elem? table (n / c.page_tokens)) e ∙ at.page_eq,
              ap (λ n. n % c.page_tokens) e ∙ at.token_eq,
            )
            (token-stores c width x at.cell source tokens k now (omega (arith, p)) hv))
        (λ i li ne. round-keeps used source tokens i (omega arith)) s refl
