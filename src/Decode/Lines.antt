-- ===== src/Decode/Lines.antt =====
-- The lines between INSTPAT_START and INSTPAT_END as a table: which line an instruction takes, and
-- tables in which no instruction fits two lines.
use mathlib.Core.Path.{subst}
use bailuwan.Base.Run.{ok}
use bailuwan.Decode.Match.{pattern_decode-agrees}
use bailuwan.Decode.Digits.{IsPattern, agrees, width}
use bailuwan.Base.{
  none≢some, some_cancel, true≢false, ◌⊎◌, inr, inl, Bool-cases, ◌%◌, ◌∙◌, ◌^◌, ap, sym, ◌/◌, zero,
  suc, ◌++◌, length, refl, some, ltb, ◌||◌, [], get_elem?, none, ◌&&◌, not, ◌==◌, Option, arith,
  false, if◌then◌else◌, true, ℕ, ◌∷◌, ◌≡◌, Bool, List,
}
use bailuwan.Decode.Pattern.{first_match, Line, Pattern, is_pattern_char}

unfoldable pub is_pattern : Pattern → Bool
unfolding is_pattern_char
is_pattern [] = true
is_pattern (c ∷ cs) = (c == b' ' || is_pattern_char c) && is_pattern cs

pub is_pattern-IsPattern : (cs : Pattern) → is_pattern cs ≡ true → IsPattern cs
unfolding is_pattern
is_pattern-IsPattern [] h = tt
is_pattern-IsPattern (c ∷ cs) h = (ground arith, is_pattern-IsPattern cs (ground arith))

-- The characters that stand for bits.
unfoldable pub strip : Pattern → Pattern
strip [] = []
strip (c ∷ cs) = if c == b' ' then strip cs else c ∷ strip cs

-- Two patterns without spaces that want different values of one bit.
unfoldable pub clash : Pattern → Pattern → Bool
clash [] ds = false
clash (c ∷ cs) [] = false
clash (c ∷ cs) (d ∷ ds) = (not (c == b'?') && not (d == b'?') && not (c == d)) || clash cs ds

width-strip : (cs : Pattern) → width (strip cs) ≡ width cs
unfolding strip
width-strip [] = refl
width-strip (c ∷ cs) = ground (arith, width-strip cs)

agrees-strip : (cs : Pattern) (inst : ℕ) → agrees (strip cs) inst ≡ agrees cs inst
unfolding strip
agrees-strip [] inst = refl
agrees-strip (c ∷ cs) inst = ground (arith, width-strip cs, agrees-strip cs inst)

and_parts : (a b : Bool) → (a && b) ≡ true → (a ≡ true) × (b ≡ true)
and_parts true b h = (refl, h)
and_parts false b h = cc

ok_if : {A : Type 0} (b : Bool) (x y : A) → (if b then ok x else ok y) ≡ ok (if b then x else y)
ok_if true x y = refl
ok_if false x y = refl

bare : Pattern → Bool
bare [] = true
bare (c ∷ cs) = is_pattern_char c && bare cs

strip-bare : (cs : Pattern) → is_pattern cs ≡ true → bare (strip cs) ≡ true
unfolding is_pattern strip bare
strip-bare [] h = refl
strip-bare (c ∷ cs) h = ground (arith, strip-bare cs)

-- Two fixed characters that differ do not fit one bit.
clash_chars :
    (c d bit : ℕ)
    → is_pattern_char c ≡ true
    → is_pattern_char d ≡ true
    → (not (c == b'?') && not (d == b'?') && not (c == d)) ≡ true
    → (c == b'?' || bit == (if c == b'1' then 1 else 0)) ≡ true
    → (d == b'?' || bit == (if d == b'1' then 1 else 0)) ≡ false
unfolding is_pattern_char
clash_chars c d bit p q h a = ground arith

bare-not_space : (c : ℕ) → is_pattern_char c ≡ true → (c == b' ') ≡ false
unfolding is_pattern_char
bare-not_space c h = ground arith

clash-bare :
    (cs ds : Pattern) (inst : ℕ)
    → bare cs ≡ true
    → bare ds ≡ true
    → width cs ≡ width ds
    → clash cs ds ≡ true
    → agrees cs inst ≡ true
    → agrees ds inst ≡ false
unfolding bare clash
clash-bare [] ds inst p q w h a = cc
clash-bare (c ∷ cs) [] inst p q w h a = cc
clash-bare (c ∷ cs) (d ∷ ds) inst p q w h a =
    let (pc, ps) = and_parts (is_pattern_char c) (bare cs) p in
    let (qd, qs) = and_parts (is_pattern_char d) (bare ds) q in
    let cs_lit = bare-not_space c pc in
    let ds_lit = bare-not_space d qd in
    let same : width cs ≡ width ds = ground arith in
    ground (
      arith,
      clash_chars c d (inst / 2 ^ width cs % 2) pc qd,
      ap (λ (t : ℕ). inst / 2 ^ t % 2) same,
      clash-bare cs ds inst ps qs same,
    )

-- No instruction agrees with two patterns that clash.
clash-agrees :
    (cs ds : Pattern) (inst : ℕ)
    → is_pattern cs ≡ true
    → is_pattern ds ≡ true
    → width cs ≡ width ds
    → clash (strip cs) (strip ds) ≡ true
    → agrees cs inst ≡ true
    → agrees ds inst ≡ false
clash-agrees cs ds inst p q w c a =
    sym (agrees-strip ds inst)
    ∙ clash-bare (strip cs) (strip ds) inst (strip-bare cs p) (strip-bare ds q)
        (width-strip cs ∙ w ∙ sym (width-strip ds)) c (agrees-strip cs inst ∙ a)

module _ {Name Kind : Type 0} where
  -- Every pattern is well formed, has 32 bits and is short enough to be decoded.
  unfoldable pub valid : List (Line Name Kind) → Bool
  unfolding is_pattern
  valid [] = true
  valid (l ∷ ls) =
      is_pattern l.pattern && width l.pattern == 32 && ltb (length l.pattern) 64 && valid ls

  -- The line clashes with every line of the list.
  unfoldable pub apart : Line Name Kind → List (Line Name Kind) → Bool
  unfolding clash strip
  apart l [] = true
  apart l (m ∷ ms) = clash (strip l.pattern) (strip m.pattern) && apart l ms

  unfoldable pub unambiguous : List (Line Name Kind) → Bool
  unfolding apart
  unambiguous [] = true
  unambiguous (l ∷ ls) = apart l ls && unambiguous ls

  -- The first line whose pattern agrees with the instruction.
  unfoldable pub find_line : List (Line Name Kind) → ℕ → Option (Line Name Kind)
  find_line [] inst = none
  find_line (l ∷ ls) inst = if agrees l.pattern inst then some l else find_line ls inst

  -- In a table of valid patterns the generated code never stops, and takes that line.
  pub first_match-find_line :
      (ls : List (Line Name Kind)) (inst : ℕ)
      → valid ls ≡ true
      → first_match ls inst ≡ ok (find_line ls inst)
  unfolding first_match valid find_line
  first_match-find_line [] inst h = refl
  first_match-find_line (l ∷ ls) inst h =
      let (t, run, means) =
        pattern_decode-agrees l.pattern (is_pattern-IsPattern l.pattern (ground arith))
          (ground arith) in
      rw (run, means inst, first_match-find_line ls inst (ground arith))
        (ok_if (agrees l.pattern inst) (some l) (find_line ls inst))

  -- What `valid` says of the first line and of any other.
  valid-parts :
      (l : Line Name Kind) (ls : List (Line Name Kind))
      → valid (l ∷ ls) ≡ true
      → (is_pattern l.pattern ≡ true) × (width l.pattern ≡ 32) × (valid ls ≡ true)
  unfolding valid
  valid-parts l ls h = (ground arith, ground arith, ground arith)

  valid-get :
      (ls : List (Line Name Kind)) (i : ℕ) (l : Line Name Kind)
      → valid ls ≡ true
      → get_elem? ls i ≡ some l
      → (is_pattern l.pattern ≡ true) × (width l.pattern ≡ 32)
  valid-get [] i l v at = cc
  valid-get (m ∷ ms) zero l v at =
      let (p, w, _) = valid-parts m ms v in
      let same : m ≡ l = cc in
      subst (λ n. (is_pattern n.pattern ≡ true) × (width n.pattern ≡ 32)) same (p, w)
  valid-get (m ∷ ms) (suc i) l v at = let (_, _, v') = valid-parts m ms v in valid-get ms i l v' at

  apart-get :
      (m : Line Name Kind) (ls : List (Line Name Kind)) (i : ℕ) (l : Line Name Kind)
      → apart m ls ≡ true
      → get_elem? ls i ≡ some l
      → clash (strip m.pattern) (strip l.pattern) ≡ true
  unfolding apart
  apart-get m [] i l h at = cc
  apart-get m (n ∷ ns) zero l h at =
      let same : n ≡ l = cc in
      subst (λ k. clash (strip m.pattern) (strip k.pattern) ≡ true) same
        (and_parts (clash (strip m.pattern) (strip n.pattern)) (apart m ns) h).0
  apart-get m (n ∷ ns) (suc i) l h at =
      apart-get m ns i l (and_parts (clash (strip m.pattern) (strip n.pattern)) (apart m ns) h).1 at

  pub find_line-unambiguous :
      (ls rest : List (Line Name Kind)) (i inst : ℕ) (l : Line Name Kind)
      → valid ls ≡ true
      → unambiguous ls ≡ true
      → get_elem? ls i ≡ some l
      → agrees l.pattern inst ≡ true
      → find_line (ls ++ rest) inst ≡ some l
  unfolding unambiguous find_line
  find_line-unambiguous [] rest i inst l v u at a = cc
  find_line-unambiguous (m ∷ ms) rest zero inst l v u at a =
      let same : m ≡ l = cc in
      rw (ap (λ (n : Line Name Kind). agrees n.pattern inst) same ∙ a) (ap some same)
  find_line-unambiguous (m ∷ ms) rest (suc i) inst l v u at a =
      let (p, w, v') = valid-parts m ms v in
      let (q, w') = valid-get ms i l v' at in
      let (first, u') = and_parts (apart m ms) (unambiguous ms) u in
      let hit = apart-get m ms i l first at in
      elim (Bool-cases (agrees m.pattern inst)) [
        | inl e ↦
            absurd
              (true≢false (sym a ∙ clash-agrees m.pattern l.pattern inst p q (w ∙ sym w') hit e))
        | inr e ↦ rw e (find_line-unambiguous ms rest i inst l v' u' at a)
      ]

  -- The line that is found stands in the table and agrees, or is the last one.
  pub find_line-snoc :
      (ls : List (Line Name Kind)) (last l : Line Name Kind) (inst : ℕ)
      → find_line (ls ++ last ∷ []) inst ≡ some l
      → ((i : ℕ) × (get_elem? ls i ≡ some l) × (agrees l.pattern inst ≡ true)) ⊎ (last ≡ l)
  unfolding find_line
  find_line-snoc [] last l inst h = elim (Bool-cases (agrees last.pattern inst)) [
    | inl e ↦ inr (some_cancel (rw e at h))
    | inr e ↦ absurd (none≢some (rw e at h))
  ]
  find_line-snoc (m ∷ ms) last l inst h = elim (Bool-cases (agrees m.pattern inst)) [
    | inl e ↦
        let same : m ≡ l = some_cancel (rw e at h) in
        inl (zero, ap some same, subst (λ n. agrees n.pattern inst ≡ true) same e)
    | inr e ↦ elim (find_line-snoc ms last l inst (rw e at h)) [
      | inl (i, at, a) ↦ inl (suc i, at, a)
      | inr e' ↦ inr e'
    ]
  ]
