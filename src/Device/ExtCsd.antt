-- ===== src/Device/ExtCsd.antt =====
-- The EXT_CSD register of nemu/src/device/sdcard.c, as a driver reads it.
use bailuwan.Device.Port.{set_register}
use bailuwan.Base.{
  ◌∙◌, ap, ℕ, zero, suc, ◌+◌, ◌*◌, ◌/◌, ◌%◌, ◌^◌, ◌<◌, ◌≡◌, ◌≢◌, refl, true, false, ◌==◌, List, [],
  ◌∷◌, length, arith, some, get_elem?,
}
use bailuwan.Base.Run.{ok, and_then}
use bailuwan.Device.Sdcard.{
  sdcmd, sdarg, memory_size, Sdcard, sddata, sdcard_data, ext_csd, outl_sd,
}
use bailuwan.Device.Card.{command, read_words, inl_sddata}

abbrev ext_csd_words : ℕ → ℕ → List ℕ
ext_csd_words zero a = []
ext_csd_words (suc n) a = ext_csd a ∷ ext_csd_words n (a + 4)

get_elem?-ext_csd_words :
    (n a i : ℕ) → i < n → get_elem? (ext_csd_words n a) i ≡ some (ext_csd (a + 4 * i))
get_elem?-ext_csd_words zero a i h = absurd (omega arith)
get_elem?-ext_csd_words (suc n) a zero h = ap (λ t. some (ext_csd t)) (omega arith)
get_elem?-ext_csd_words (suc n) a (suc i) h =
    get_elem?-ext_csd_words n (a + 4) i (omega arith) ∙ ap (λ t. some (ext_csd t)) (omega arith)

ext_csd_zero : (i : ℕ) → i ≢ 48 → i ≢ 53 → ext_csd (0 + 4 * i) ≡ 0
unfolding ext_csd
ext_csd_zero i a b = ground arith

length-ext_csd_words : (n a : ℕ) → length (ext_csd_words n a) ≡ n
length-ext_csd_words zero a = refl
length-ext_csd_words (suc n) a = ap suc (length-ext_csd_words n (a + 4))

ext_csd_step :
    (s : Sdcard)
    → s.read_ext_csd ≡ true
    → (s.addr == 508) ≡ false
    → (s.addr + 4) % 2 ^ 32 ≡ s.addr + 4
    → ((sdcard_data s).read_ext_csd ≡ true)
      × ((sdcard_data s).addr ≡ s.addr + 4)
      × ((sdcard_data s).fp ≡ s.fp)
      × ((sdcard_data s).base sddata ≡ ext_csd s.addr)
unfolding sdcard_data
ext_csd_step s on before small = (rw (on, before) refl, rw (on, small) refl, rw on refl, rw on refl)

-- The register is read from `addr` up to its end at 512, and the file stays as it is.
read_words-ext_csd_left :
    (n : ℕ) (s : Sdcard)
    → s.read_ext_csd ≡ true
    → s.addr + 4 * suc n ≡ 512
    → (s' : Sdcard) × (read_words (suc n) s ≡ ok (ext_csd_words (suc n) s.addr, s'))
      × (s'.read_ext_csd ≡ false)
      × (s'.fp ≡ s.fp)
unfolding read_words
read_words-ext_csd_left zero s on end =
    let last : s.addr ≡ 508 = omega arith in
    (
      sdcard_data s,
      rw (inl_sddata s) (unfold sdcard_data in rw (on, last) refl),
      (unfold sdcard_data in rw (on, last) refl),
      (unfold sdcard_data in rw on refl),
    )
read_words-ext_csd_left (suc n) s on end =
    let before : (s.addr == 508) ≡ false = ground arith in
    let small : (s.addr + 4) % 2 ^ 32 ≡ s.addr + 4 = omega arith in
    let (on', addr', file', word) = ext_csd_step s on before small in
    let (s', run, off, file) =
      read_words-ext_csd_left n (sdcard_data s) on' (rw addr' (omega arith)) in
    (s', rw (inl_sddata s, word, run, addr') refl, off, file ∙ file')

-- After the command 8, 128 reads give the EXT_CSD register: its revision 2 at byte 192, the number
-- of sectors at byte 212, and 0 elsewhere. After them the data register gives the file again.
pub read_words-ext_csd :
    (arg : ℕ) (s : Sdcard)
    → (ws : List ℕ) × (s' : Sdcard) × (and_then (command 8 arg s) (read_words 128) ≡ ok (ws, s'))
      × (length ws ≡ 128)
      × (get_elem? ws 48 ≡ some 2)
      × (get_elem? ws 53 ≡ some (memory_size / 512))
      × ((i : ℕ) → i < 128 → i ≢ 48 → i ≢ 53 → get_elem? ws i ≡ some 0)
      × (s'.read_ext_csd ≡ false)
      × (s'.fp ≡ s.fp)
unfolding command outl_sd
read_words-ext_csd arg s =
    let s1 = record s {
      base = set_register (set_register s.base sdarg arg) sdcmd 8;
      read_ext_csd = true;
      addr = 0;
    } in
    let (s', run, off, file) = read_words-ext_csd_left 127 s1 refl refl in
    let at = get_elem?-ext_csd_words 128 0 in
    (
      ext_csd_words 128 0,
      s',
      run,
      length-ext_csd_words 128 0,
      at 48 (omega arith),
      at 53 (omega arith),
      λ i h a b. at i h ∙ ap some (ext_csd_zero i a b),
      off,
      file,
    )
