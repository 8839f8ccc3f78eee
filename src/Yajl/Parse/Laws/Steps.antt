-- ===== src/Yajl/Parse/Laws/Steps.antt =====
-- What one callback does to the memory of the parser.
use schemaless_benchmarks.Base.{
  Bool, ℕ, suc, ◌+◌, ◌-◌, ◌^◌, ◌≤◌, ◌<◌, ◌≡◌, refl, ap, arith, true, false, ◌==◌, leb, u32,
  if◌then◌else◌,
}
use schemaless_benchmarks.Hash.{hash_u32}
use schemaless_benchmarks.Yajl.Parse.{
  Memory, store, children, count_child, update, parse_start_compound, parse_end_compound,
  parser_init,
}

-- At depth `d`, `n` children have been counted, and the hash is `hash`. The counts of the levels above
-- are kept.
pub record Counted (d hash n : ℕ) (before after : Memory) : Type 0 where
  pub hashed : after 0 ≡ hash
  pub depth : after 1 ≡ d
  pub count : after (2 + d) ≡ u32 (before (2 + d) + n)
  pub above : (i : ℕ) → 2 ≤ i → i < 2 + d → after i ≡ before i

count_child_lem :
    (parser : Memory) (d i : ℕ)
    → parser 1 ≡ d
    → d ≤ 31
    → count_child parser i ≡ (if i == 2 + d then u32 (parser (2 + d) + 1) else parser i)
unfolding count_child
count_child_lem parser d i at shallow =
    let place : children (parser 1) ≡ 2 + d = omega arith in rw place refl

pub scalar-Counted :
    (f : ℕ → ℕ) (parser : Memory) (d : ℕ)
    → parser 1 ≡ d
    → d ≤ 31
    → Counted d (f (parser 0)) 1 parser (update f (count_child parser)).1
scalar-Counted f parser d at shallow = record {
  hashed = ap f (ground (arith, count_child_lem parser d 0));
  depth = ground (arith, count_child_lem parser d 1);
  count = ground (arith, count_child_lem parser d (2 + d));
  above = λ i low high. ground (arith, count_child_lem parser d i);
}

-- A new level at depth `d`: its count is 0.
pub record Started (d hash : ℕ) (parser : Memory) : Type 0 where
  pub hashed : parser 0 ≡ hash
  pub depth : parser 1 ≡ suc d
  pub empty : parser (2 + suc d) ≡ 0

pub record Opens (in_register : Bool) (d : ℕ) (before after : Memory) : Type 0 where
  pub succeeds : parse_start_compound in_register before ≡ (true, after)
  pub started : Started d (before 0) after
  pub count : after (2 + d) ≡ u32 (before (2 + d) + 1)
  pub above : (i : ℕ) → 2 ≤ i → i < 2 + d → after i ≡ before i

pub start_at : Memory → ℕ → Memory
start_at parser d = store (2 + suc d) 0 (store 1 (suc d) (count_child parser))

-- Below the root it makes no difference when `depth` is read.
depth-read :
    (in_register : Bool) (parser : Memory) (d : ℕ)
    → parser 1 ≡ d
    → d ≤ 31
    → (if in_register then parser 1 else count_child parser 1) ≡ d
depth-read true parser d at shallow = at
depth-read false parser d at shallow = ground (arith, count_child_lem parser d 1)

pub start_at-Opens :
    (in_register : Bool) (parser : Memory) (d : ℕ)
    → parser 1 ≡ d
    → d < 31
    → Opens in_register d parser (start_at parser d)
unfolding parse_start_compound start_at
start_at-Opens in_register parser d at shallow =
    let read = depth-read in_register parser d at (omega arith) in
    let deeper : u32 (d + 1) ≡ suc d = omega arith in
    let room : leb 32 (suc d) ≡ false = ground arith in
    let place : children (suc d) ≡ 2 + suc d = omega arith in
    record {
      succeeds = rw (read, deeper, room, place) refl;
      started = record {
        hashed = ground (arith, count_child_lem parser d 0);
        depth = ground arith;
        empty = ground arith;
      };
      count = ground (arith, count_child_lem parser d (2 + d));
      above = λ i low high. ground (arith, count_child_lem parser d i);
    }

-- At depth 31 there is no room for another level.
pub start-deep :
    (in_register : Bool) (parser : Memory) (d : ℕ)
    → parser 1 ≡ d
    → 31 ≤ d
    → d < 32
    → (parse_start_compound in_register parser).0 ≡ false
unfolding parse_start_compound
start-deep in_register parser d at deep bound =
    let read = depth-read in_register parser d at (omega arith) in
    let deeper : u32 (d + 1) ≡ suc d = omega arith in
    let full : leb 32 (suc d) ≡ true = ground arith in rw (read, deeper, full) refl

pub record Closes (d : ℕ) (before after : Memory) : Type 0 where
  pub succeeds : parse_end_compound before ≡ (true, after)
  pub hashed : after 0 ≡ hash_u32 (before 0) (before (2 + suc d))
  pub depth : after 1 ≡ d
  pub others : (i : ℕ) → 2 ≤ i → after i ≡ before i

pub end_at : Memory → ℕ → Memory
end_at parser d = store 1 d (store 0 (hash_u32 (parser 0) (parser (2 + suc d))) parser)

pub end_at-Closes :
    (parser : Memory) (d : ℕ) → parser 1 ≡ suc d → d < 31 → Closes d parser (end_at parser d)
unfolding parse_end_compound end_at
end_at-Closes parser d at shallow =
    let place : children (parser 1) ≡ 2 + suc d = omega arith in
    let up : u32 (parser 1 + (2 ^ 32 - 1)) ≡ d = omega arith in
    record {
      succeeds = rw (place, up) refl;
      hashed = refl;
      depth = refl;
      others = λ i low. ground arith;
    }

-- The root is counted in the word of the depth, which is 0 from then on.
pub root_counted :
    (hash : ℕ) (rest : Memory) (i : ℕ)
    → count_child (parser_init hash rest) i
      ≡ (if i == 1 then 0 else if i == 0 then hash else rest i)
unfolding count_child parser_init
root_counted hash rest i = ground arith

-- The depth at which the children of the root stand.
abbrev pub root_level : Bool → ℕ
root_level in_register = if in_register then 0 else 1

pub root_level-small : (in_register : Bool) → root_level in_register ≤ 1
root_level-small true = omega arith
root_level-small false = omega arith

-- The level of the root's children: its count is 0.
pub record RootStarted (level hash : ℕ) (parser : Memory) : Type 0 where
  pub hashed : parser 0 ≡ hash
  pub depth : parser 1 ≡ level
  pub empty : parser (2 + level) ≡ 0

pub root_start : Bool → ℕ → Memory → Memory
root_start in_register hash rest =
    let level = root_level in_register in
    store (2 + level) 0 (store 1 level (count_child (parser_init hash rest)))

parser_init-depth : (hash : ℕ) (rest : Memory) → parser_init hash rest 1 ≡ 2 ^ 32 - 1
unfolding parser_init
parser_init-depth hash rest = refl

pub root-Started :
    (in_register : Bool) (hash : ℕ) (rest : Memory)
    → (parse_start_compound in_register (parser_init hash rest)
        ≡ (true, root_start in_register hash rest))
      × RootStarted (root_level in_register) hash (root_start in_register hash rest)
unfolding parse_start_compound root_start
root-Started true hash rest =
    let deeper : u32 (parser_init hash rest 1 + 1) ≡ 0 = rw (parser_init-depth hash rest) refl in
    (rw deeper refl, record { hashed = root_counted hash rest 0; depth = refl; empty = refl })
root-Started false hash rest =
    let deeper : u32 (count_child (parser_init hash rest) 1 + 1) ≡ 1 =
      rw (root_counted hash rest 1) refl in
    (rw deeper refl, record { hashed = root_counted hash rest 0; depth = refl; empty = refl })

-- The end of the root mixes in the count of its children.
pub root-ends :
    (parser : Memory) (level : ℕ)
    → parser 1 ≡ level
    → level ≤ 1
    → (after : Memory) × (parse_end_compound parser ≡ (true, after))
      × (after 0 ≡ hash_u32 (parser 0) (parser (2 + level)))
unfolding parse_end_compound
root-ends parser level at small =
    let place : children (parser 1) ≡ 2 + level = omega arith in (_, refl, rw place refl)
