-- ===== src/DiskFs/Directory.antt =====
-- The directory and the super block of kernel/diskfs.c: what is saved is loaded again.
use fobos_os.Base.{
  ℕ, zero, suc, ◌+◌, ◌*◌, ◌/◌, ◌%◌, ◌^◌, ◌<◌, ◌≤◌, ◌≡◌, refl, some, List, [], ◌∷◌, ◌++◌, length,
  length-append, take, drop, get_elem?, take-append, drop-append, take_all, arith, ap, ◌∙◌, sym,
  append_assoc,
}
use fobos_os.DiskFs.Layout.{
  Entry, Super, dfs_magic, word_bytes, word_at, entry_bytes, dir_entry_at, super_bytes, super_at,
  entries_bytes, entries_at,
}

-- An entry whose fields fit their places.
pub record IsEntry (e : Entry) : Type 0 where
  pub name_length : length e.name ≡ 32
  pub start_bound : e.start_sector < 2 ^ 32
  pub size_bound : e.size_bytes + 511 < 2 ^ 32
  pub used_bound : e.used < 2 ^ 32
  pub reserved_length : length e.reserved ≡ 20

pub record IsSuper (s : Super) : Type 0 where
  pub magic_eq : s.magic ≡ dfs_magic
  pub version_eq : s.version ≡ 1
  pub total_bound : s.total_sectors < 2 ^ 32
  pub data_bound : s.data_start < 2 ^ 32
  pub free_bound : s.next_free < 2 ^ 32
  pub count_bound : s.file_count < 2 ^ 32
  pub reserved_length : length s.reserved ≡ 488

abbrev pub AllEntries : List Entry → Type 0
AllEntries es = (i : ℕ) (e : Entry) → get_elem? es i ≡ some e → IsEntry e

word_eq :
    (v : ℕ)
    → v < 2 ^ 32
    → v % 256 + v / 256 % 256 * 256 + v / 2 ^ 16 % 256 * 2 ^ 16 + v / 2 ^ 24 % 256 * 2 ^ 24 ≡ v
word_eq v h = omega arith

length-entry_bytes : (e : Entry) → IsEntry e → length (entry_bytes e) ≡ 64
unfolding entry_bytes
length-entry_bytes e v =
    let words =
      word_bytes e.start_sector ++ word_bytes e.size_bytes ++ word_bytes e.used ++ e.reserved in
    length-append e.name words
    ∙ counted (length e.name) (length e.reserved) v.name_length v.reserved_length
  where
    counted :
        (a b : ℕ)
        → a ≡ 32
        → b ≡ 20
        → a + suc (suc (suc (suc (suc (suc (suc (suc (suc (suc (suc (suc b))))))))))) ≡ 64
    counted a b ea eb = omega arith

dir_entry_at_lem :
    (p : List ℕ) (e : Entry)
    → take 32 p ≡ e.name
    → word_at 0 (drop 32 p) ≡ e.start_sector
    → word_at 4 (drop 32 p) ≡ e.size_bytes
    → word_at 8 (drop 32 p) ≡ e.used
    → take 20 (drop 44 p) ≡ e.reserved
    → dir_entry_at p ≡ e
unfolding dir_entry_at
dir_entry_at_lem p e h0 h1 h2 h3 h4 = rw (h0, h1, h2, h3, h4) refl

-- The three words of an entry, and what stands behind its name.
abbrev entry_words : Entry → List ℕ
entry_words e = word_bytes e.start_sector ++ word_bytes e.size_bytes ++ word_bytes e.used

dir_entry_at-entry_bytes :
    (e : Entry) (rest : List ℕ) → IsEntry e → dir_entry_at (entry_bytes e ++ rest) ≡ e
unfolding entry_bytes
dir_entry_at-entry_bytes e rest v =
    let behind = entry_words e ++ (e.reserved ++ rest) in
    let split : (e.name ++ (entry_words e ++ e.reserved)) ++ rest ≡ e.name ++ behind =
      append_assoc e.name (entry_words e ++ e.reserved) rest in
    let name : take 32 (e.name ++ behind) ≡ e.name =
      take-append e.name behind 32 (sym v.name_length) in
    let words : drop 32 (e.name ++ behind) ≡ behind =
      drop-append e.name behind 32 (sym v.name_length) in
    let far : drop 44 (e.name ++ behind) ≡ e.reserved ++ rest =
      ap (drop 44) (sym (append_assoc e.name (entry_words e) (e.reserved ++ rest)))
      ∙ drop-append (e.name ++ entry_words e) (e.reserved ++ rest) 44
          (omega (arith, v.name_length, length-append e.name (entry_words e))) in
    let reserved : take 20 (e.reserved ++ rest) ≡ e.reserved =
      take-append e.reserved rest 20 (sym v.reserved_length) in
    ap dir_entry_at split
    ∙ dir_entry_at_lem (e.name ++ behind) e name
        (ap (word_at 0) words ∙ word_eq e.start_sector v.start_bound)
        (ap (word_at 4) words ∙ word_eq e.size_bytes (omega (arith, v.size_bound)))
        (ap (word_at 8) words ∙ word_eq e.used v.used_bound) (ap (take 20) far ∙ reserved)

pub super_at-super_bytes : (s : Super) → IsSuper s → super_at (super_bytes s) ≡ s
unfolding super_at super_bytes
super_at-super_bytes s v =
    let reserved : take 488 s.reserved ≡ s.reserved =
      take_all 488 s.reserved (omega (arith, v.reserved_length)) in
    let magic_bound : s.magic < 2 ^ 32 = omega (arith, v.magic_eq) in
    let version_bound : s.version < 2 ^ 32 = omega (arith, v.version_eq) in
    rw
      (
        reserved,
        word_eq s.magic magic_bound,
        word_eq s.version version_bound,
        word_eq s.total_sectors v.total_bound,
        word_eq s.data_start v.data_bound,
        word_eq s.next_free v.free_bound,
        word_eq s.file_count v.count_bound,
      )
      refl

pub entries_at-entries_bytes :
    (n : ℕ) (es : List Entry) (rest : List ℕ)
    → n ≤ length es
    → AllEntries es
    → entries_at n (entries_bytes n es ++ rest) ≡ take n es
unfolding entries_at entries_bytes
entries_at-entries_bytes zero es rest h v = refl
entries_at-entries_bytes (suc n) [] rest h v = absurd (omega (arith, h))
entries_at-entries_bytes (suc n) (e ∷ es) rest h v =
    let behind = entries_bytes n es ++ rest in
    let split : (entry_bytes e ++ entries_bytes n es) ++ rest ≡ entry_bytes e ++ behind =
      append_assoc (entry_bytes e) (entries_bytes n es) rest in
    let valid = v 0 e refl in
    let next : drop 64 (entry_bytes e ++ behind) ≡ behind =
      drop-append (entry_bytes e) behind 64 (sym (length-entry_bytes e valid)) in
    let later = entries_at-entries_bytes n es rest (omega (arith, h)) (λ i. v (suc i)) in
    rw (split, next, dir_entry_at-entry_bytes e behind valid, later) refl

pub AllEntries-drop : (n : ℕ) (es : List Entry) → AllEntries es → AllEntries (drop n es)
AllEntries-drop zero es v = v
AllEntries-drop (suc n) [] v = v
AllEntries-drop (suc n) (e ∷ es) v = AllEntries-drop n es (λ i. v (suc i))
