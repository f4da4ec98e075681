-- ===== src/Simulator/Hierarchy/Tlb.antt =====
-- The sizes of the TLB and of the set of prefetched lines (src/simulator.cpp).
use sched_forge.Base.{
  ℕ, suc, ◌≤◌, ◌<◌, ◌≡◌, inl, inr, refl, sym, ◌∙◌, ap, subst, Bool, true, false, Bool-cases, List,
  [], ◌∷◌, length, any, leb, ltb, ◌==◌, if◌then◌else◌, arith,
}
use sched_forge.Simulator.Hierarchy.{
  TlbEntry, is_page, min_element, erase_page, evict, touch, erase, contains,
}

pub erase-length :
    (key : ℕ) (xs : List ℕ) → contains key xs ≡ true → suc (length (erase key xs)) ≡ length xs
unfolding erase
erase-length key [] h = cc
erase-length key (x ∷ xs) h = elim (Bool-cases (x == key)) [
  | inl e ↦ rw e refl
  | inr e ↦ rw e (ap suc (erase-length key xs (rw e at h)))
]

pub touch-length : (page clock : ℕ) (es : List TlbEntry) → length (touch page clock es) ≡ length es
unfolding touch
touch-length page clock [] = refl
touch-length page clock (e ∷ es) = elim (Bool-cases (is_page page e)) [
  | inl t ↦ rw t refl
  | inr t ↦ rw t (ap suc (touch-length page clock es))
]

erase_page-length :
    (page : ℕ) (es : List TlbEntry)
    → any (is_page page) es ≡ true
    → suc (length (erase_page page es)) ≡ length es
unfolding erase_page
erase_page-length page [] h = cc
erase_page-length page (e ∷ es) h = elim (Bool-cases (is_page page e)) [
  | inl t ↦ rw t refl
  | inr t ↦ rw t (ap suc (erase_page-length page es (rw t at h)))
]

min_element-cons :
    (best e : TlbEntry) (es : List TlbEntry)
    → min_element best (e ∷ es)
      ≡ min_element (if ltb e.last_used best.last_used then e else best) es
unfolding min_element
min_element-cons best e es = refl

any-tail :
    (p : TlbEntry → Bool) (a : TlbEntry) (es : List TlbEntry)
    → any p es ≡ true
    → any p (a ∷ es) ≡ true
any-tail p a es h = elim (Bool-cases (p a)) [ inl e ↦ rw e refl | inr e ↦ rw e h ]

any-insert :
    (p : TlbEntry → Bool) (a b : TlbEntry) (es : List TlbEntry)
    → any p (a ∷ es) ≡ true
    → any p (a ∷ b ∷ es) ≡ true
any-insert p a b es h = elim (Bool-cases (p a)) [
  | inl e ↦ rw e refl
  | inr e ↦ rw e (any-tail p b es (rw e at h))
]

-- The smallest entry is one of the entries.
min_element-any :
    (best : TlbEntry) (es : List TlbEntry)
    → any (is_page (min_element best es).page) (best ∷ es) ≡ true
min_element-any best [] = unfold min_element in ground arith
min_element-any best (e ∷ es) =
    let step : (b : Bool)
        → ltb e.last_used best.last_used ≡ b
        → min_element best (e ∷ es) ≡ min_element (if b then e else best) es =
      λ b t. min_element-cons best e es ∙ ap (λ b. min_element (if b then e else best) es) t in
    let P : TlbEntry → Type 0 = λ m. any (is_page m.page) (best ∷ e ∷ es) ≡ true in
    elim (Bool-cases (ltb e.last_used best.last_used)) [
      | inl t ↦
          subst P (sym (step true t))
            (any-tail (is_page (min_element e es).page) best (e ∷ es) (min_element-any e es))
      | inr t ↦
          subst P (sym (step false t))
            (any-insert (is_page (min_element best es).page) best e es (min_element-any best es))
    ]

evict-length : (es : List TlbEntry) → 0 < length es → suc (length (evict es)) ≡ length es
unfolding evict
evict-length [] h = absurd (omega arith)
evict-length (e ∷ es) h = erase_page-length (min_element e es).page (e ∷ es) (min_element-any e es)

pub evict-bound :
    (es : List TlbEntry) → length es ≤ 64 → leb 64 (length es) ≡ true → suc (length (evict es)) ≤ 64
evict-bound es le full = let e = evict-length es (ground arith) in omega arith
