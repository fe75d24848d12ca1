-- ===== src/Device/Card.antt =====
-- What the SD card promises its driver: the blocks it stores, and its EXT_CSD register.
use Prim.Native.Nat.{min}
use bailuwan.Base.{
  ◌∙◌, ℕ, zero, suc, ◌+◌, ◌-◌, ◌*◌, ◌/◌, ◌%◌, ◌^◌, ◌<◌, ◌≤◌, ◌≡◌, refl, Bool, true, false,
  if◌then◌else◌, List, [], ◌∷◌, length, arith, some, inl,
}
use bailuwan.Base.Run.{Run, ok, and_then}
use bailuwan.Memory.Host.{Memory, load}
use bailuwan.Memory.Store.{load-lt, store-IsBytes, IsBytes, load-store, load-store_apart}
use bailuwan.Device.Port.{set_register}
use bailuwan.Device.Sdcard.{
  Sdcard, File, sddata, sdcmd, sdarg, outl_sd, inl_sd, sdcard_data, fread_word, fwrite_word,
}

-- What a driver does: a command with its argument, and words through the data register.
unfoldable pub command : ℕ → ℕ → Sdcard → Run Sdcard
command cmd arg s = and_then (outl_sd sdarg arg s) λ s'. outl_sd sdcmd cmd s'

unfoldable pub write_words : List ℕ → Sdcard → Run Sdcard
write_words [] s = ok s
write_words (w ∷ ws) s = and_then (outl_sd sddata w s) λ s'. write_words ws s'

unfoldable pub read_words : ℕ → Sdcard → Run (List ℕ × Sdcard)
read_words zero s = ok ([], s)
read_words (suc n) s =
    and_then (inl_sd sddata s) λ (w, s'). and_then (read_words n s') λ (ws, s''). ok (w ∷ ws, s'')

unfoldable pub write_blocks : ℕ → List ℕ → Sdcard → Run Sdcard
write_blocks blk ws s = and_then (command 25 blk s) λ s'. write_words ws s'

unfoldable pub read_blocks : ℕ → ℕ → Sdcard → Run (List ℕ × Sdcard)
read_blocks blk n s = and_then (command 18 blk s) λ s'. read_words n s'

abbrev pub AllWords : List ℕ → Type 0
AllWords [] = Unit {0}
AllWords (w ∷ ws) = (w < 2 ^ 32) × AllWords ws

-- A card that moves data between its register and the file.
record Transfers (write_cmd : Bool) (f : File) (s : Sdcard) : Type 0 where
  file : s.fp ≡ some f
  mode : s.write_cmd ≡ write_cmd
  plain : s.read_ext_csd ≡ false
  word : s.base sddata < 2 ^ 32

-- The file after `ws` has been written at its position, and what is read from it.
unfoldable fwrite_words : List ℕ → File → File
fwrite_words [] f = f
fwrite_words (w ∷ ws) f = fwrite_words ws (fwrite_word w f)

unfoldable loads : ℕ → Memory → ℕ → List ℕ
loads zero m p = []
loads (suc n) m p = load m p 4 ∷ loads n m (p + 4)

fwrite_words_before :
    (ws : List ℕ) (f : File) (p : ℕ)
    → p + 4 ≤ f.position
    → load (fwrite_words ws f).content p 4 ≡ load f.content p 4
unfolding fwrite_words fwrite_word
fwrite_words_before [] f p h = refl
fwrite_words_before (w ∷ ws) f p h =
    fwrite_words_before ws (fwrite_word w f) p (omega arith)
    ∙ load-store_apart 4 p 4 f.position w f.content (inl h)

fwrite_words_size :
    (ws : List ℕ) (f : File)
    → f.position ≤ f.size
    → f.position + 4 * length ws ≤ (fwrite_words ws f).size
unfolding fwrite_words fwrite_word
fwrite_words_size [] f h = omega arith
fwrite_words_size (w ∷ ws) f h =
    let rest = fwrite_words_size ws (fwrite_word w f) (omega arith) in omega arith

fwrite_words-IsBytes :
    (ws : List ℕ) (f : File) → IsBytes f.content → IsBytes (fwrite_words ws f).content
unfolding fwrite_words fwrite_word
fwrite_words-IsBytes [] f h = h
fwrite_words-IsBytes (w ∷ ws) f h =
    fwrite_words-IsBytes ws (fwrite_word w f) (store-IsBytes 4 f.position w f.content h)

loads-fwrite_words :
    (ws : List ℕ) (f : File)
    → AllWords ws
    → loads (length ws) (fwrite_words ws f).content f.position ≡ ws
unfolding fwrite_words fwrite_word loads
loads-fwrite_words [] f h = refl
loads-fwrite_words (w ∷ ws) f (small, h) =
    let first = fwrite_words_before ws (fwrite_word w f) f.position (omega arith) in
    let kept = load-store 4 f.position w f.content in
    let rest = loads-fwrite_words ws (fwrite_word w f) h in
    let whole : w % 256 ^ 4 ≡ w = omega arith in rw (first, kept, whole, rest) refl

abbrev given : ℕ → Sdcard → Sdcard
given w s = record s { base = set_register s.base sddata w }

outl_sddata : (w : ℕ) (s : Sdcard) → outl_sd sddata w s ≡ ok (sdcard_data (given w s))
unfolding outl_sd
outl_sddata w s = refl

pub inl_sddata : (s : Sdcard) → inl_sd sddata s ≡ ok ((sdcard_data s).base sddata, sdcard_data s)
unfolding inl_sd
inl_sddata s = refl

written-Transfers :
    (w : ℕ) (f : File) (s : Sdcard)
    → w < 2 ^ 32
    → Transfers true f s
    → Transfers true (fwrite_word w f) (sdcard_data (given w s))
unfolding sdcard_data
written-Transfers w f s small t = record {
  file = rw (t.plain, t.file, t.mode) refl;
  mode = rw (t.plain, t.file, t.mode) refl;
  plain = rw (t.plain, t.file, t.mode) refl;
  word = rw (t.plain, t.file, t.mode) small;
}

read-Transfers :
    (f : File) (s : Sdcard)
    → IsBytes f.content
    → f.position + 4 ≤ f.size
    → Transfers false f s
    → ((sdcard_data s).base sddata ≡ load f.content f.position 4)
      × Transfers false (record f { position = f.position + 4 }) (sdcard_data s)
unfolding sdcard_data fread_word
read-Transfers f s bytes room t =
    let full : min 4 (f.size - f.position) ≡ 4 = omega arith in
    let nothing : s.base sddata / 256 ^ 4 ≡ 0 = omega (arith, t.word) in
    let none_left : load f.content f.position 4 + 0 * 256 ^ 4 ≡ load f.content f.position 4 =
      omega arith in
    (
      rw (t.plain, t.file, t.mode, full, nothing) none_left,
      record {
        file = rw (t.plain, t.file, t.mode, full) refl;
        mode = rw (t.plain, t.file, t.mode) refl;
        plain = rw (t.plain, t.file, t.mode) refl;
        word =
            rw (t.plain, t.file, t.mode, full, nothing, none_left)
              (load-lt 4 f.position f.content bytes);
      },
    )

write_words-Transfers :
    (ws : List ℕ) (f : File) (s : Sdcard)
    → AllWords ws
    → Transfers true f s
    → (s' : Sdcard) × (write_words ws s ≡ ok s') × Transfers true (fwrite_words ws f) s'
unfolding write_words fwrite_words
write_words-Transfers [] f s h t = (s, refl, t)
write_words-Transfers (w ∷ ws) f s (small, h) t =
    let (s', run, t') =
      write_words-Transfers ws (fwrite_word w f) (sdcard_data (given w s)) h
        (written-Transfers w f s small t) in
    (s', rw (outl_sddata w s) run, t')

read_words-Transfers :
    (n : ℕ) (f : File) (s : Sdcard)
    → IsBytes f.content
    → f.position + 4 * n ≤ f.size
    → Transfers false f s
    → (s' : Sdcard) × (read_words n s ≡ ok (loads n f.content f.position, s'))
unfolding read_words loads
read_words-Transfers zero f s bytes room t = (s, refl)
read_words-Transfers (suc n) f s bytes room t =
    let (word, t') = read-Transfers f s bytes (omega arith) t in
    let (s', run) =
      read_words-Transfers n (record f { position = f.position + 4 }) (sdcard_data s) bytes
        (omega arith) t' in
    (s', rw (inl_sddata s, word, run) refl)

abbrev seek : ℕ → File → File
seek blk f = record f { position = blk * 2 ^ 9 }

-- The commands 18 and 25 leave the card ready to move data at the block.
command-Transfers :
    (write_cmd : Bool) (blk : ℕ) (f : File) (s : Sdcard)
    → s.fp ≡ some f
    → s.read_ext_csd ≡ false
    → s.base sddata < 2 ^ 32
    → (s' : Sdcard) × (command (if write_cmd then 25 else 18) blk s ≡ ok s')
      × Transfers write_cmd (seek blk f) s'
unfolding command outl_sd
command-Transfers true blk f s file plain word =
    (_, refl, record { file = rw file refl; mode = refl; plain = plain; word = word })
command-Transfers false blk f s file plain word =
    (_, refl, record { file = rw file refl; mode = refl; plain = plain; word = word })

-- With an image file that is open, a block that begins inside it or at its end, and no EXT_CSD
-- register that is still to be read, words written from the block on are read back by a read from
-- that block on.
pub read_blocks-write_blocks :
    (blk : ℕ) (ws : List ℕ) (f : File) (s : Sdcard)
    → IsBytes f.content
    → AllWords ws
    → s.fp ≡ some f
    → s.read_ext_csd ≡ false
    → s.base sddata < 2 ^ 32
    → blk * 2 ^ 9 ≤ f.size
    → (s' : Sdcard) × (and_then (write_blocks blk ws s) (read_blocks blk (length ws)) ≡ ok (ws, s'))
unfolding write_blocks read_blocks
read_blocks-write_blocks blk ws f s bytes words file plain word inside =
    let (s1, sent, t1) = command-Transfers true blk f s file plain word in
    let (s2, wrote, t2) = write_words-Transfers ws (seek blk f) s1 words t1 in
    let f' = fwrite_words ws (seek blk f) in
    let (s3, asked, t3) = command-Transfers false blk f' s2 t2.file t2.plain t2.word in
    let (s4, got) =
      read_words-Transfers (length ws) (seek blk f') s3 (fwrite_words-IsBytes ws (seek blk f) bytes)
        (fwrite_words_size ws (seek blk f) inside) t3 in
    (s4, rw (sent, wrote, asked, got, loads-fwrite_words ws (seek blk f) words) refl)
