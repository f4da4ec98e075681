-- ===== src/Serving/PagedKv/Pages.antt =====
-- Which pages are in use and which are free: the partition that the allocator of
-- src/next_milestones.cpp keeps, through the loops that move a page.
use native.Mathlib.Nat.{div-lt_iff_lt-mul, lt-div-mul-add}
use sched_forge.Base.{
  ℕ, zero, suc, ◌+◌, ◌-◌, ◌*◌, ◌/◌, ◌≤◌, ◌<◌, ◌≡◌, refl, ap, ◌∙◌, ltb, leb, if◌then◌else◌,
  Bool-cases, Option-cases, none, some, List, [], ◌∷◌, ◌++◌, length, get_elem?, count, count-append,
  length-append, get_elem?-append_left, inl, inr, arith,
}
use sched_forge.Base.Loops.{back, pop_back, pop_back-back, length-pop_back, back-none}
use sched_forge.Serving.PagedKv.{
  PagedKvConfig, PagedKvCache, Outcome, pages_of, take_page, grow_table, iota,
}

-- Every page below `n` is in the table or free, once and not both.
pub record IsPartition (n : ℕ) (table free : List ℕ) : Type 0 where
  pub each : (p : ℕ) → count p table + count p free ≡ (if ltb p n then 1 else 0)
  pub all : length table + length free ≡ n

count-iota : (n p : ℕ) → count p (iota n) ≡ (if ltb p n then 1 else 0)
unfolding iota
count-iota zero p = ground arith
count-iota (suc n) p = ground (arith, count-iota n p, count-append p (iota n) (n ∷ []))

length-iota : (n : ℕ) → length (iota n) ≡ n
unfolding iota
length-iota zero = refl
length-iota (suc n) = ground (arith, length-iota n, length-append (iota n) (n ∷ []))

pub iota-IsPartition : (n : ℕ) → IsPartition n [] (iota n)
iota-IsPartition n = record {
  each = λ p. omega (arith, count-iota n p);
  all = omega (arith, length-iota n);
}

-- The last page of one list goes to the end of the other.
pub count-move :
    (xs ys : List ℕ) {x : ℕ} (p : ℕ)
    → back xs ≡ some x
    → count p (pop_back xs) + count p (ys ++ x ∷ []) ≡ count p xs + count p ys
count-move xs ys {x} p e =
    let whole : count p xs ≡ count p (pop_back xs ++ x ∷ []) = ap (count p) (pop_back-back xs e) in
    ground (arith, whole, count-append p (pop_back xs) (x ∷ []), count-append p ys (x ∷ []))

pub length-move :
    (xs ys : List ℕ) {x : ℕ}
    → back xs ≡ some x
    → length (pop_back xs) + length (ys ++ x ∷ []) ≡ length xs + length ys
length-move xs ys {x} e = ground (arith, length-pop_back xs e, length-append ys (x ∷ []))

pub take-IsPartition :
    (n : ℕ) (table free : List ℕ) {page : ℕ}
    → back free ≡ some page
    → IsPartition n table free
    → IsPartition n (table ++ page ∷ []) (pop_back free)
take-IsPartition n table free e w = record {
  each = λ p. omega (arith, count-move free table p e, w.each p);
  all = omega (arith, length-move free table e, w.all);
}

pub give-IsPartition :
    (n : ℕ) (table free : List ℕ) {page : ℕ}
    → back table ≡ some page
    → IsPartition n table free
    → IsPartition n (pop_back table) (free ++ page ∷ [])
give-IsPartition n table free e w = record {
  each = λ p. omega (arith, count-move table free p e, w.each p);
  all = omega (arith, length-move table free e, w.all);
}

pub count-get : (xs : List ℕ) (i : ℕ) {p : ℕ} → get_elem? xs i ≡ some p → 0 < count p xs
count-get [] i e = cc
count-get (x ∷ xs) zero e = ground arith
count-get (x ∷ xs) (suc i) {p} e = ground (arith, count-get xs i e)

-- A page stands in the table once.
pub once-injective :
    (xs : List ℕ) (i j : ℕ) {p : ℕ}
    → count p xs ≤ 1
    → get_elem? xs i ≡ some p
    → get_elem? xs j ≡ some p
    → i ≡ j
once-injective [] i j h e f = cc
once-injective (x ∷ xs) zero zero h e f = refl
once-injective (x ∷ xs) zero (suc j) {p} h e f = absurd (ground (arith, count-get xs j f))
once-injective (x ∷ xs) (suc i) zero {p} h e f = absurd (ground (arith, count-get xs i e))
once-injective (x ∷ xs) (suc i) (suc j) {p} h e f =
    ap suc (once-injective xs i j (ground arith) e f)

pub page-lt :
    (n : ℕ) (table free : List ℕ) (i : ℕ) {p : ℕ}
    → IsPartition n table free
    → get_elem? table i ≡ some p
    → p < n
page-lt n table free i {p} w e = ground (arith, w.each p, count-get table i e)

pub page_once : (n : ℕ) (table free : List ℕ) (p : ℕ) → IsPartition n table free → count p table ≤ 1
page_once n table free p w = ground (arith, w.each p)

-- The pages of the capacity hold every token below it.
pub covers :
    (c : PagedKvConfig) (tokens : ℕ)
    → 0 < c.page_tokens
    → tokens ≤ pages_of c tokens * c.page_tokens
unfolding pages_of
covers c tokens h = omega (arith, lt-div-mul-add {a = tokens + c.page_tokens - 1} h)

pub page_of-lt : (t n k : ℕ) → 0 < n → t < k * n → t / n < k
page_of-lt t n k h l = (div-lt_iff_lt-mul h).1 l

module _ {F : Type 0} where
  -- What `grow_table` has done when it returns: only the two lists of pages have changed, the table is
  -- long enough, and it begins with the old one.
  pub record IsGrown (n last : ℕ) (cache : PagedKvCache F) (out : Outcome F) : Type 0 where
    pub returns : out.error ≡ none
    pub same :
        out.cache
        ≡ record cache { page_table = out.cache.page_table; free_pages = out.cache.free_pages }
    pub pages : IsPartition n out.cache.page_table out.cache.free_pages
    pub long : last < length out.cache.page_table
    pub prefix :
        (i : ℕ)
        → i < length cache.page_table
        → get_elem? out.cache.page_table i ≡ get_elem? cache.page_table i

  pub grow_table-IsGrown :
      (n fuel last : ℕ) (cache : PagedKvCache F)
      → IsPartition n cache.page_table cache.free_pages
      → last < n
      → last < length cache.page_table + fuel
      → IsGrown n last cache (grow_table fuel last cache)
  unfolding grow_table take_page
  grow_table-IsGrown n zero last cache w h k = record {
    returns = refl;
    same = refl;
    pages = w;
    long = omega arith;
    prefix = λ i l. refl;
  }
  grow_table-IsGrown n (suc fuel) last cache w h k =
      elim (Bool-cases (leb (length cache.page_table) last)) [
        | inr f ↦
            rw (f, grow_table)
              (record {
                returns = refl;
                same = refl;
                pages = w;
                long = ground arith;
                prefix = λ i l. refl;
              })
        | inl t ↦ elim (Option-cases (back cache.free_pages)) [
          | inl e ↦ absurd (ground (arith, w.all, ap length (back-none cache.free_pages e)))
          | inr (page, e) ↦
              rw (t, e, grow_table)
                (let taken = take_page cache page in
                  let rest =
                    grow_table-IsGrown n fuel last taken
                      (take-IsPartition n cache.page_table cache.free_pages e w) h
                      (ground (arith, length-append cache.page_table (page ∷ []))) in
                  record {
                    returns = rest.returns;
                    same = rest.same;
                    pages = rest.pages;
                    long = rest.long;
                    prefix = λ i l.
                        rest.prefix i (ground (arith, length-append cache.page_table (page ∷ [])))
                        ∙ get_elem?-append_left cache.page_table (page ∷ []) i l;
                  })
        ]
      ]
