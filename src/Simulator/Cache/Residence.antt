-- ===== src/Simulator/Cache/Residence.antt =====
-- What the whole cache does with an address.
use native.Mathlib.Nat.{mod-lt}
use sched_forge.Base.{
  true-ne-false, ℕ, zero, suc, ◌/◌, ◌<◌, ◌≡◌, ◌≢◌, inl, inr, refl, sym, subst, ap, ◌∙◌, Bool, true,
  false, ◌||◌, not, ◌&&◌, ◌==◌, if◌then◌else◌, Bool-cases, some, List, [], ◌∷◌, foldl, All, All-get,
  All-update, length, length-update, get_elem?, get_elem?-lt, get_elem?-update, update, any, arith,
}
use sched_forge.Base.Result.{ok, ok-injective, throw-ne-ok}
use sched_forge.Simulator.Cache.{
  Line, empty_line, Cache, replicate, make_cache, matches, find_way, first_used, access_set, set_of,
  tag_of, access, resident,
}
use sched_forge.Simulator.Cache.Lru.{
  IsUsed, Found-cases, find_way-hit, find_way-miss, any-get, access_set-hits, access_set-victim,
}

abbrev IsCacheSet : List Line → Type 0
IsCacheSet lines = (0 < length lines) × All IsUsed lines

matches-valid : (tag : ℕ) (line : Line) → matches tag line ≡ true → line.valid ≢ false
matches-valid tag line m e = absurd (true-ne-false (sym m ∙ rw e refl))

-- What an access leaves in a set.
abbrev IsLeft : ℕ → List Line × Bool → Type 0
IsLeft tag r = IsCacheSet r.0 × (any (matches tag) r.0 ≡ true)

update-IsLeft :
    (tag i : ℕ) (lines : List Line) (f : Line → Line) (line : Line) (b : Bool)
    → get_elem? lines i ≡ some line
    → matches tag (f line) ≡ true
    → IsCacheSet lines
    → IsLeft tag (update lines i f, b)
update-IsLeft tag i lines f line b at m s = (
  (
    rw (length-update lines i f) s.0,
    All-update IsUsed lines i f at (λ e. absurd (matches-valid tag (f line) m e)) s.1,
  ),
  any-get (matches tag) (update lines i f) i (f line) (get_elem?-update lines i f at) m,
)

access_set-hit :
    (clock tag : ℕ) (lines : List Line)
    → IsCacheSet lines
    → any (matches tag) lines ≡ true
    → IsLeft tag (access_set clock tag lines)
unfolding access_set
access_set-hit clock tag lines s h =
    elim (Found-cases (find_way tag lines 0 0 (first_used lines))) [
      | inl (w, e) ↦
          let (i, line, at_w, at, m) = find_way-hit tag lines 0 0 _ w e in
          let w_eq : w ≡ i = omega arith in
          rw (e, w_eq, access_set)
            (update-IsLeft tag i lines (λ l. record l { last_used = clock }) line true at m s)
      | inr (v, e) ↦ absurd (true-ne-false (sym h ∙ find_way-miss tag lines 0 0 _ v e))
    ]

access_set-IsLeft :
    (clock tag : ℕ) (lines : List Line) → IsCacheSet lines → IsLeft tag (access_set clock tag lines)
access_set-IsLeft clock tag lines s = elim (Bool-cases (any (matches tag) lines)) [
  | inl h ↦ access_set-hit clock tag lines s h
  | inr h ↦
      let (v, line, at, _, e) = access_set-victim clock tag lines s.1 s.0 h in
      rw e (
        update-IsLeft tag v lines (λ _. record { tag = tag; last_used = clock; valid = true }) line
          false at (ground arith) s)
]

pub record IsCache (c : Cache) : Type 0 where
  sets_positive : 0 < c.sets
  cut : length c.lines ≡ c.sets
  filled : All IsCacheSet c.lines

-- The set of an address.
set_at :
    (c : Cache) (address : ℕ)
    → IsCache c
    → (lines : List Line) × (get_elem? c.lines (set_of c address) ≡ some lines)
set_at c address i =
    get_elem?-lt c.lines (set_of c address) (
      subst (λ n. set_of c address < n) (sym i.cut)
        (mod-lt (address / c.line_size) i.sets_positive))

-- The cache with a set written back.
abbrev stored : Cache → ℕ → List Line → Cache
stored c address lines = record c {
  clock = suc c.clock;
  lines = update c.lines (set_of c address) (λ _. lines);
}

access-stored :
    (c : Cache) (address : ℕ) (lines : List Line)
    → get_elem? c.lines (set_of c address) ≡ some lines
    → access c address
      ≡ (let r = access_set (suc c.clock) (tag_of c address) lines in (stored c address r.0, r.1))
unfolding access
access-stored c address lines at = rw (at, access) refl

resident-set :
    (c : Cache) (address : ℕ) (lines : List Line)
    → get_elem? c.lines (set_of c address) ≡ some lines
    → resident c address ≡ any (matches (tag_of c address)) lines
unfolding resident
resident-set c address lines at = rw (at, resident) refl

-- An access to a well-formed cache hits exactly when the address's line is resident, and leaves a
-- well-formed cache in which it is.
pub access-resident :
    (c : Cache) (address : ℕ)
    → IsCache c
    → ((access c address).1 ≡ resident c address)
      × (resident (access c address).0 address ≡ true)
      × IsCache (access c address).0
access-resident c address i =
    let (lines, at) = set_at c address i in
    let left =
      access_set-IsLeft (suc c.clock) (tag_of c address) lines
        (All-get IsCacheSet c.lines _ at i.filled) in
    rw (access-stored c address lines at) (
      access_set-hits _ _ lines ∙ sym (resident-set c address lines at),
      resident-set (stored c address _) address _ (get_elem?-update c.lines _ _ at) ∙ left.1,
      record {
        sets_positive = i.sets_positive;
        cut = length-update c.lines _ _ ∙ i.cut;
        filled = All-update IsCacheSet c.lines (set_of c address) _ at left.0 i.filled;
      },
    )

replicate-All : {A : Type 0} (P : A → Type 0) (n : ℕ) (x : A) → P x → All P (replicate n x)
unfolding replicate
replicate-All P zero x h = tt
replicate-All P (suc n) x h = (h, replicate-All P n x h)

length-replicate : {A : Type 0} (n : ℕ) (x : A) → length (replicate n x) ≡ n
unfolding replicate
length-replicate zero x = refl
length-replicate (suc n) x = ap suc (length-replicate n x)

fresh-IsCache :
    (line_size ways sets : ℕ)
    → 0 < ways
    → 0 < sets
    → IsCache (record {
      line_size = line_size;
      ways = ways;
      sets = sets;
      lines = replicate sets (replicate ways empty_line);
      clock = 0;
    })
fresh-IsCache line_size ways sets w s = record {
  sets_positive = s;
  cut = length-replicate sets _;
  filled =
      replicate-All IsCacheSet sets _
        (rw (length-replicate ways empty_line) w, replicate-All IsUsed ways empty_line (λ e. refl));
}

-- A cache that can be constructed is well-formed.
pub make_cache-IsCache :
    (capacity line_size ways : ℕ) (c : Cache)
    → make_cache capacity line_size ways ≡ ok c
    → IsCache c
unfolding make_cache
make_cache-IsCache capacity line_size ways c h =
    let sets = if not (ways == 0) && not (line_size == 0) then capacity / line_size / ways else 0 in
    elim (Bool-cases ((line_size == 0) || (ways == 0) || (sets == 0))) [
      | inl e ↦ absurd (throw-ne-ok (rw (e, make_cache) at h))
      | inr e ↦
          rw (← ok-injective (rw (e, make_cache) at h))
            (fresh-IsCache line_size ways sets (ground arith) (ground arith))
    ]

-- What a run of accesses leaves.
unfoldable pub accesses : Cache → List ℕ → Cache
accesses c addresses = foldl (λ c address. (access c address).0) c addresses

accesses-IsCache : (addresses : List ℕ) (c : Cache) → IsCache c → IsCache (accesses c addresses)
unfolding accesses
accesses-IsCache [] c i = i
accesses-IsCache (a ∷ addresses) c i =
    accesses-IsCache addresses (access c a).0 (access-resident c a i).2

-- In a cache that was constructed and then accessed any number of times, an access hits exactly when the
-- line of its address is resident, and its line is resident afterwards.
pub accesses-resident :
    (capacity line_size ways : ℕ) (c : Cache) (addresses : List ℕ) (address : ℕ)
    → make_cache capacity line_size ways ≡ ok c
    → let c' = accesses c addresses in
      ((access c' address).1 ≡ resident c' address)
      × (resident (access c' address).0 address ≡ true)
accesses-resident capacity line_size ways c addresses address h =
    let i = accesses-IsCache addresses c (make_cache-IsCache capacity line_size ways c h) in
    let (a, b, _) = access-resident (accesses c addresses) address i in (a, b)
