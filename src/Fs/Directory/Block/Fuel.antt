-- ===== src/Fs/Directory/Block/Fuel.antt =====
-- The scans of a block of entries end by themselves, whatever the block holds.
use deprecat_os.Prelude.{
  ℕ, zero, suc, ◌+◌, ◌≤◌, ◌<◌, ◌≡◌, Option, ltb, false, arith, Bool-cases, inl, inr, ◌==◌,
}
use deprecat_os.Fs.Bytes.{Bytes}
use deprecat_os.Fs.Directory.Block.{
  Name, Insertion, Removal, curr_entry_size, is_bad, lookup, lookup_on, find_entry, find_entry_on,
  insert_entry, insert_entry_on, remove_entry, remove_entry_on,
}

-- An entry that passes the guard is 8 bytes long at least.
good_size : (b : Bytes) (c : ℕ) → is_bad b c ≡ false → 8 ≤ curr_entry_size b c
unfolding is_bad
good_size b c e = ground arith

module _ (b : Bytes) (name : Name) where
  lookup_ends :
      (out : Option ℕ) (m n c : ℕ)
      → 0 < m
      → 4096 < c + m
      → 4096 ≤ c + n
      → lookup_on out m b name 4096 c ≡ lookup n b name 4096 c
  unfolding lookup_on
  lookup_ends out zero n c pos h k = absurd (omega (arith, pos))
  lookup_ends out (suc m) zero c pos h k = ground arith
  lookup_ends out (suc m) (suc n) c pos h k = elim (Bool-cases (ltb c 4096)) [
    | inr past ↦ ground (arith, past)
    | inl inside ↦ elim (Bool-cases (curr_entry_size b c == 0)) [
      | inl e ↦ ground (arith, e)
      | inr e ↦
          let size : 1 ≤ curr_entry_size b c = ground (arith, e) in
          let below : c < 4096 = ground (arith, inside) in
          let rest =
            lookup_ends out m n (c + curr_entry_size b c) (omega arith) (omega arith)
              (omega arith) in
          ground (arith, rest)
    ]
  ]

  find_ends :
      (out : Option ℕ) (m n c : ℕ)
      → 0 < m
      → 4096 < c + m
      → 4096 ≤ c + n
      → find_entry_on out m b name c ≡ find_entry n b name c
  unfolding find_entry_on
  find_ends out zero n c pos h k = absurd (omega (arith, pos))
  find_ends out (suc m) zero c pos h k = ground arith
  find_ends out (suc m) (suc n) c pos h k = elim (Bool-cases (ltb c 4096)) [
    | inr past ↦ ground (arith, past)
    | inl inside ↦ elim (Bool-cases (is_bad b c)) [
      | inl e ↦ ground (arith, e)
      | inr e ↦
          let size : 1 ≤ curr_entry_size b c = omega (arith, good_size b c e) in
          let below : c < 4096 = ground (arith, inside) in
          let rest =
            find_ends out m n (c + curr_entry_size b c) (omega arith) (omega arith) (omega arith) in
          ground (arith, rest)
    ]
  ]

  remove_ends :
      (out : Removal) (m n p c : ℕ)
      → 0 < m
      → 4096 < c + m
      → 4096 ≤ c + n
      → remove_entry_on out m b name p c ≡ remove_entry n b name p c
  unfolding remove_entry_on
  remove_ends out zero n p c pos h k = absurd (omega (arith, pos))
  remove_ends out (suc m) zero p c pos h k = ground arith
  remove_ends out (suc m) (suc n) p c pos h k = elim (Bool-cases (ltb c 4096)) [
    | inr past ↦ ground (arith, past)
    | inl inside ↦ elim (Bool-cases (is_bad b c)) [
      | inl e ↦ ground (arith, e)
      | inr e ↦
          let size : 1 ≤ curr_entry_size b c = omega (arith, good_size b c e) in
          let below : c < 4096 = ground (arith, inside) in
          let rest =
            remove_ends out m n c (c + curr_entry_size b c) (omega arith) (omega arith)
              (omega arith) in
          ground (arith, rest)
    ]
  ]

  insert_ends :
      (out : Insertion) (len child type : ℕ) (m n c : ℕ)
      → 0 < m
      → 4096 < c + m
      → 4096 ≤ c + n
      → insert_entry_on out m b name len child type c ≡ insert_entry n b name len child type c
  unfolding insert_entry_on
  insert_ends out len child type zero n c pos h k = absurd (omega (arith, pos))
  insert_ends out len child type (suc m) zero c pos h k = ground arith
  insert_ends out len child type (suc m) (suc n) c pos h k = elim (Bool-cases (ltb c 4096)) [
    | inr past ↦ ground (arith, past)
    | inl inside ↦ elim (Bool-cases (is_bad b c)) [
      | inl e ↦ ground (arith, e)
      | inr e ↦
          let size : 1 ≤ curr_entry_size b c = omega (arith, good_size b c e) in
          let below : c < 4096 = ground (arith, inside) in
          let rest =
            insert_ends out len child type m n (c + curr_entry_size b c) (omega arith) (omega arith)
              (omega arith) in
          ground (arith, rest)
    ]
  ]

-- Whatever bytes a block holds, the scans of `lookup_path`, `name_in`, `dir_insert` and
-- `dir_remove` end within 4096 rounds: with any larger number of rounds, and with any value to
-- return when the rounds are out, each returns what it returns with 4096 rounds.
pub scans_end :
    (b : Bytes) (name : Name) (len child type n : ℕ) (out : Option ℕ) (out_i : Insertion)
    (out_r : Removal)
    → 4096 < n
    → (lookup_on out n b name 4096 0 ≡ lookup 4096 b name 4096 0)
      × (find_entry_on out n b name 0 ≡ find_entry 4096 b name 0)
      × (insert_entry_on out_i n b name len child type 0
          ≡ insert_entry 4096 b name len child type 0)
      × (remove_entry_on out_r n b name 0 0 ≡ remove_entry 4096 b name 0 0)
scans_end b name len child type n out out_i out_r h = (
  lookup_ends b name out n 4096 0 (omega arith) (omega arith) (omega arith),
  find_ends b name out n 4096 0 (omega arith) (omega arith) (omega arith),
  insert_ends b name out_i len child type n 4096 0 (omega arith) (omega arith) (omega arith),
  remove_ends b name out_r n 4096 0 0 (omega arith) (omega arith) (omega arith),
)
