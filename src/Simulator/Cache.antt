-- ===== src/Simulator/Cache.antt =====
-- The class `Cache` of src/simulator.cpp: a set-associative cache with least-recently-used replacement.
-- The vector `lines_` is cut into its sets, each a list of `ways_` lines.
pub mod Lru
pub mod Residence
use Prim.Native.String.{String}
use sched_forge.Base.{
  ℕ, zero, suc, ◌+◌, ◌*◌, ◌/◌, ◌%◌, Bool, true, false, not, ◌&&◌, ◌||◌, Option, none, some, List,
  [], ◌∷◌, get_elem?, update, any, ltb, ◌==◌, if◌then◌else◌,
}
use sched_forge.Base.Result.{Result, ok, throw}

pub record Line : Type 0 where
  pub tag : ℕ
  pub last_used : ℕ
  pub valid : Bool

abbrev pub empty_line : Line
empty_line = record { tag = 0; last_used = 0; valid = false }

pub record Cache : Type 0 where
  pub line_size : ℕ
  pub ways : ℕ
  pub sets : ℕ
  pub lines : List (List Line)
  pub clock : ℕ

unfoldable pub replicate : {A : Type 0} → ℕ → A → List A
replicate zero x = []
replicate (suc n) x = x ∷ replicate n x

abbrev pub bad_geometry : String
bad_geometry = "cache capacity, line size, and associativity must define at least one set"

unfoldable pub make_cache : ℕ → ℕ → ℕ → Result Cache
make_cache capacity line_size associativity =
    let sets =
      if not (associativity == 0) && not (line_size == 0)
      then capacity / line_size / associativity
      else 0 in
    if (line_size == 0) || (associativity == 0) || (sets == 0)
    then throw bad_geometry
    else ok (record {
      line_size = line_size;
      ways = associativity;
      sets = sets;
      lines = replicate sets (replicate associativity empty_line);
      clock = 0;
    })

abbrev pub matches : ℕ → Line → Bool
matches tag line = line.valid && (line.tag == tag)

pub data Found : Type 0 where
  hit : ℕ → Found
  miss : ℕ → Found

-- The loop over the ways, with the victim so far and its `last_used`.
unfoldable pub find_way : ℕ → List Line → ℕ → ℕ → ℕ → Found
find_way tag [] way victim used = miss victim
find_way tag (line ∷ lines) way victim used =
    let is_older = not line.valid || ltb line.last_used used in
    let rest =
      find_way tag lines (suc way) (if is_older then way else victim)
        (if is_older then line.last_used else used) in
    if matches tag line then hit way else rest

-- The `last_used` of `lines_[set * ways_]`, the first victim.
abbrev pub first_used : List Line → ℕ
first_used [] = 0
first_used (line ∷ lines) = line.last_used

-- One set, at the new time.
unfoldable pub access_set : ℕ → ℕ → List Line → List Line × Bool
access_set clock tag lines = elim (find_way tag lines 0 0 (first_used lines)) [
  | hit way ↦ (update lines way (λ line. record line { last_used = clock }), true)
  | miss victim ↦
      (update lines victim (λ line. record { tag = tag; last_used = clock; valid = true }), false)
]

abbrev pub set_of : Cache → ℕ → ℕ
set_of c address = address / c.line_size % c.sets

abbrev pub tag_of : Cache → ℕ → ℕ
tag_of c address = address / c.line_size / c.sets

-- `Cache::access`.
unfoldable pub access : Cache → ℕ → Cache × Bool
access c address =
    let clock = suc c.clock in
    elim (get_elem? c.lines (set_of c address)) [
      | none ↦ (record c { clock = clock }, false)
      | some lines ↦
          let (lines', is_hit) = access_set clock (tag_of c address) lines in
          (
            record c { clock = clock; lines = update c.lines (set_of c address) (λ _. lines') },
            is_hit,
          )
    ]

-- Whether the address's line is in the cache.
unfoldable pub resident : Cache → ℕ → Bool
resident c address = elim (get_elem? c.lines (set_of c address)) [
  | none ↦ false
  | some lines ↦ any (matches (tag_of c address)) lines
]
