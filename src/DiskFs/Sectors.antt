-- ===== src/DiskFs/Sectors.antt =====
-- The bytes of a file in its sectors: what the loops of kernel/diskfs.c write, they read back.
use fobos_os.Base.{
  ℕ, zero, suc, ◌+◌, ◌-◌, ◌*◌, ◌<◌, ◌≤◌, ◌≡◌, refl, ◌≢◌, ◌⊎◌, inl, Bool, true, false, some, List,
  [], ◌∷◌, ◌++◌, length, take, drop, replicate, min, length-take, length-drop, take-append-drop,
  arith, ap, ◌∙◌, ◌==◌, if◌then◌else◌,
}
use fobos_os.DiskFs.Device.{Device, IsReliable}
use fobos_os.DiskFs.Layout.{padded}
use fobos_os.DiskFs.Files.{read_loop, write_loop}

-- `n` sectors are as many as `len` bytes take.
pub record Sized (n len : ℕ) : Type 0 where
  pub enough : len ≤ n * 512
  pub not_more : n * 512 < len + 512

take_prefix : (n : ℕ) (a b : List ℕ) → n ≤ length a → take n (a ++ b) ≡ take n a
take_prefix zero a b h = refl
take_prefix (suc n) [] b h = absurd (omega (arith, h))
take_prefix (suc n) (x ∷ a) b h = ap (λ l. x ∷ l) (take_prefix n a b (omega (arith, h)))

take-take : (m n : ℕ) (a : List ℕ) → m ≤ n → take m (take n a) ≡ take m a
take-take zero n a h = refl
take-take (suc m) zero a h = absurd (omega (arith, h))
take-take (suc m) (suc n) [] h = refl
take-take (suc m) (suc n) (x ∷ a) h = ap (λ l. x ∷ l) (take-take m n a (omega (arith, h)))

-- What is copied out of a sector that was written is what went into it.
take-padded :
    (bytes : List ℕ)
    → take (min (length bytes) 512) (padded (take 512 bytes)) ≡ take (min (length bytes) 512) bytes
take-padded bytes =
    take_prefix (min (length bytes) 512) (take 512 bytes)
      (replicate (512 - length (take 512 bytes)) 0) (omega (arith, length-take 512 bytes))
    ∙ take-take (min (length bytes) 512) 512 bytes (omega arith)

take_whole : (n : ℕ) (a : List ℕ) → take (min (length a) n) a ≡ take n a
take_whole zero [] = refl
take_whole zero (x ∷ a) = let e : min (length (x ∷ a)) 0 ≡ 0 = omega arith in rw e refl
take_whole (suc n) [] = let e : min 0 (suc n) ≡ 0 = omega arith in rw e refl
take_whole (suc n) (x ∷ a) =
    let e : min (suc (length a)) (suc n) ≡ suc (min (length a) n) = omega arith in
    rw e (ap (λ l. x ∷ l) (take_whole n a))

module _ (D : Device) (R : IsReliable D) where
  abbrev count : D.State → ℕ
  count s = D.ata_sector_count s

  -- The sectors from `lba` on hold the bytes.
  abbrev pub Stored : ℕ → ℕ → List ℕ → D.State → Type 0
  Stored zero lba bytes s = length bytes ≡ 0
  Stored (suc n) lba bytes s =
      (R.contents s lba ≡ padded (take 512 bytes)) × Stored n (lba + 1) (drop 512 bytes) s

  -- Sectors outside of the `n` from `lba` on are as they were.
  abbrev pub Outside : ℕ → ℕ → D.State → D.State → Type 0
  Outside lba n s s' = (j : ℕ) → (j < lba) ⊎ (lba + n ≤ j) → R.contents s' j ≡ R.contents s j

  pub Stored-frame :
      (n lba : ℕ) (bytes : List ℕ) (s s' : D.State)
      → ((j : ℕ) → lba ≤ j → j < lba + n → R.contents s' j ≡ R.contents s j)
      → Stored n lba bytes s
      → Stored n lba bytes s'
  Stored-frame zero lba bytes s s' same h = h
  Stored-frame (suc n) lba bytes s s' same h = (
    same lba (omega arith) (omega arith) ∙ h.0,
    Stored-frame n (lba + 1) (drop 512 bytes) s s'
        (λ j lo hi. same j (omega (arith, lo)) (omega (arith, hi))) h.1,
  )

  -- Writing the bytes: it succeeds, they are stored, and nothing else changes.
  pub record Written (n lba : ℕ) (bytes : List ℕ) (s : D.State) (r : Bool × D.State) : Type 0 where
    pub ok : r.0 ≡ true
    pub same_count : D.ata_sector_count r.1 ≡ D.ata_sector_count s
    pub outside : Outside lba n s r.1
    pub stored : Stored n lba bytes r.1

  nothing_left : (n : ℕ) (bytes : List ℕ) → Sized n (length bytes) → length bytes ≡ 0 → n ≡ 0
  nothing_left n bytes z e = omega (arith, z.not_more, e)

  write_loop_none :
      (fuel lba : ℕ) (bytes : List ℕ) (s : D.State)
      → length bytes ≡ 0
      → write_loop D fuel lba bytes s ≡ (true, s)
  unfolding write_loop
  write_loop_none zero lba bytes s e = refl
  write_loop_none (suc fuel) lba bytes s e =
      let k : (length bytes == 0) ≡ true = ground (arith, e) in rw k refl

  -- What a write of one sector leaves, at that sector and at another.
  abbrev SectorSet : D.State → D.State → ℕ → List ℕ → Type 0
  SectorSet s' s lba sector =
      (j : ℕ) → R.contents s' j ≡ (if j == lba then sector else R.contents s j)

  pub same_sector :
      (s' s : D.State) (lba : ℕ) (sector : List ℕ)
      → SectorSet s' s lba sector
      → R.contents s' lba ≡ sector
  same_sector s' s lba sector h = let k : (lba == lba) ≡ true = ground arith in h lba ∙ rw k refl

  pub other_sector :
      (s' s : D.State) (lba j : ℕ) (sector : List ℕ)
      → SectorSet s' s lba sector
      → j ≢ lba
      → R.contents s' j ≡ R.contents s j
  other_sector s' s lba j sector h ne =
      let k : (j == lba) ≡ false = ground (arith, ne) in h j ∙ rw k refl

  pub write_loop-Written :
      (fuel n lba : ℕ) (bytes : List ℕ) (s : D.State)
      → Sized n (length bytes)
      → n ≤ fuel
      → (1 ≤ n → lba + n ≤ count s)
      → Written n lba bytes s (write_loop D fuel lba bytes s)
  unfolding write_loop
  write_loop-Written fuel zero lba bytes s z f r =
      let done = write_loop_none fuel lba bytes s (omega (arith, z.enough)) in
      rw done (record {
        ok = refl;
        same_count = refl;
        outside = λ j h. refl;
        stored = omega (arith, z.enough);
      })
  write_loop-Written zero (suc n) lba bytes s z f r = absurd (omega (arith, f))
  write_loop-Written (suc fuel) (suc n) lba bytes s z f r =
      let w = R.write s lba (padded (take 512 bytes)) (omega (arith, r (omega arith))) in
      let s' = (D.ata_write_sector lba (padded (take 512 bytes)) s).1 in
      let some_byte : (length bytes == 0) ≡ false = ground (arith, z.not_more) in
      let len = length-drop 512 bytes in
      let later =
        write_loop-Written fuel n (lba + 1) (drop 512 bytes) s'
          (record {
            enough = omega (arith, len, z.enough);
            not_more = omega (arith, len, z.not_more);
          })
          (omega (arith, f)) (λ h. omega (arith, w.1, r (omega arith))) in
      rw (some_byte, w.0)
        (record {
          ok = later.ok;
          same_count = later.same_count ∙ w.1;
          outside = λ j h.
              later.outside j (ground (arith, h))
              ∙ other_sector s' s lba j (padded (take 512 bytes)) w.2 (ground (arith, h));
          stored = (
            later.outside lba (inl (omega arith))
                ∙ same_sector s' s lba (padded (take 512 bytes)) w.2,
            later.stored,
          );
        })

  read_loop_none : (fuel lba : ℕ) (s : D.State) → read_loop D fuel lba 0 s ≡ some []
  unfolding read_loop
  read_loop_none zero lba s = refl
  read_loop_none (suc fuel) lba s = refl

  empty_of_length : (bytes : List ℕ) → length bytes ≡ 0 → bytes ≡ []
  empty_of_length [] e = refl
  empty_of_length (x ∷ bytes) e = absurd (omega (arith, e))

  -- What is stored is read.
  pub read_loop-Stored :
      (fuel n lba : ℕ) (bytes : List ℕ) (s : D.State)
      → Sized n (length bytes)
      → n ≤ fuel
      → (1 ≤ n → lba + n ≤ count s)
      → Stored n lba bytes s
      → read_loop D fuel lba (length bytes) s ≡ some bytes
  unfolding read_loop
  read_loop-Stored fuel zero lba bytes s z f r h =
      let e = empty_of_length bytes h in rw e (read_loop_none fuel lba s)
  read_loop-Stored zero (suc n) lba bytes s z f r h = absurd (omega (arith, f))
  read_loop-Stored (suc fuel) (suc n) lba bytes s z f r h =
      let sector = R.read s lba (omega (arith, r (omega arith))) in
      let some_byte : (length bytes == 0) ≡ false = ground (arith, z.not_more) in
      let len = length-drop 512 bytes in
      let left : length bytes - min (length bytes) 512 ≡ length (drop 512 bytes) =
        omega (arith, len) in
      let later =
        read_loop-Stored fuel n (lba + 1) (drop 512 bytes) s
          (record {
            enough = omega (arith, len, z.enough);
            not_more = omega (arith, len, z.not_more);
          })
          (omega (arith, f)) (λ e. omega (arith, r (omega arith))) h.1 in
      let copied : take (min (length bytes) 512) (R.contents s lba) ≡ take 512 bytes =
        ap (take (min (length bytes) 512)) h.0 ∙ take-padded bytes ∙ take_whole 512 bytes in
      rw (some_byte, sector, left, later)
        (ap some (ap (λ l. l ++ drop 512 bytes) copied ∙ take-append-drop 512 bytes))
