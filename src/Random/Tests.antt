-- ===== src/Random/Tests.antt =====
-- Seeds, and states of the generator.
use schemaless_benchmarks.Base.{◌≡◌, refl, inl}
use schemaless_benchmarks.Random.{Random, random_next, random_seed}
use schemaless_benchmarks.Random.Next.{random_seed_excluded}

abbrev start : Random
start = record { v = 257; c = 0x100000 }

seeded : random_seed 1 ≡ record { v = 256; c = 0x100000 }
unfolding random_seed
seeded = refl

stepped : (random_next start).0 ≡ 1719268520
unfolding random_next
stepped = refl

random_seed_excluded_example : (random_seed 0xffffffff).v ≡ 0xfffffffe
random_seed_excluded_example = random_seed_excluded 0xffffffff (inl refl)
