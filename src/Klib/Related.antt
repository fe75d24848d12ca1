-- ===== src/Klib/Related.antt =====
-- The formatted output of abstract-machine/klib/src/stdio.c writes by WRITE_CHAR alone: on two
-- states whose WRITE_CHAR agree, it does the same.
use bailuwan.Base.{
  leb, ◌^◌, ◌%◌, Bool-cases, ℕ, zero, suc, ◌-◌, Bool, true, false, ◌==◌, ◌&&◌, ◌||◌, ltb,
  if◌then◌else◌, List, [], ◌∷◌, length, Option, none, some, inl, inr, codes,
}
use bailuwan.Base.Run.{Run, ok, stop, and_then, undefined, Stop}
use bailuwan.Klib.Print.{
  Arg, integer, text, Next, done, more, write_text, write_pad, write_reverse, write_number,
  print_integer, convert_text, convert_integer, convert_number, convert_specifier, convert,
  format_step, format_loop, digits_buf, parse_length, parse_zero, parse_width, arg_bits,
}

-- Two runs that stop for the same reason, or return related results.
pub data SameRun {A B : Type 0} (R : A → B → Type 0) : Run A → Run B → Type 0 where
  both_stop : (w : Stop) → SameRun R (stop w) (stop w)
  both_ok : (a : A) (b : B) → R a b → SameRun R (ok a) (ok b)

-- A test that both runs make alike.
either :
    {A B : Type 0} {Q : A → B → Type 0} (b : Bool) {x y : Run A} {x' y' : Run B}
    → SameRun Q x x'
    → SameRun Q y y'
    → SameRun Q (if b then x else y) (if b then x' else y')
either true hx hy = hx
either false hx hy = hy

module _ {S T : Type 0} (put : ℕ → S → S) (put' : ℕ → T → T) (R : S → T → Type 0)
    (keep : (c : ℕ) (s : S) (t : T) → R s t → R (put c s) (put' c t)) where
  pub data SameNext : Next S → Next T → Type 0 where
    both_done : (s : S) (t : T) → R s t → SameNext (done s) (done t)
    both_more :
        (f : List ℕ) (args : List Arg) (s : S) (t : T)
        → R s t
        → SameNext (more f args s) (more f args t)

  write_text-R :
      (cs : List ℕ) (s : S) (t : T) → R s t → R (write_text put cs s) (write_text put' cs t)
  unfolding write_text
  write_text-R [] s t h = h
  write_text-R (c ∷ cs) s t h = write_text-R cs (put c s) (put' c t) (keep c s t h)

  write_pad-R : (n c : ℕ) (s : S) (t : T) → R s t → R (write_pad put n c s) (write_pad put' n c t)
  unfolding write_pad
  write_pad-R zero c s t h = h
  write_pad-R (suc n) c s t h = write_pad-R n c (put c s) (put' c t) (keep c s t h)

  write_reverse-R :
      (buf : List ℕ) (s : S) (t : T)
      → R s t
      → R (write_reverse put buf s) (write_reverse put' buf t)
  unfolding write_reverse
  write_reverse-R [] s t h = h
  write_reverse-R (c ∷ buf) s t h = keep c _ _ (write_reverse-R buf s t h)

  write_number-R :
      (negative : Bool) (buf : List ℕ) (zero_pad : Bool) (width : ℕ) (s : S) (t : T)
      → R s t
      → R
          (write_number put negative buf zero_pad width s)
          (write_number put' negative buf zero_pad width t)
  unfolding write_number
  write_number-R false buf zero_pad width s t h =
      let c = if zero_pad then b'0' else b' ' in
      let pad = width - length buf in
      write_reverse-R buf (write_pad put pad c s) (write_pad put' pad c t) (write_pad-R pad c s t h)
  write_number-R true buf zero_pad width s t h =
      let pad = width - 1 - length buf in
      elim (Bool-cases (zero_pad && ltb 0 width)) [
        | inl padded ↦ rw padded (
            write_reverse-R buf (write_pad put pad b'0' (put b'-' s))
              (write_pad put' pad b'0' (put' b'-' t))
              (write_pad-R pad b'0' (put b'-' s) (put' b'-' t) (keep b'-' s t h)))
        | inr plain ↦ rw plain (
            write_reverse-R buf (put b'-' (write_pad put pad b' ' s))
              (put' b'-' (write_pad put' pad b' ' t))
              (keep b'-' (write_pad put pad b' ' s) (write_pad put' pad b' ' t)
                (write_pad-R pad b' ' s t h)))
      ]

  print_integer-R :
      (negative : Bool) (abs_val : ℕ) (zero_pad : Bool) (width fmt : ℕ) (s : S) (t : T)
      → R s t
      → SameRun R
          (print_integer put negative abs_val zero_pad width fmt s)
          (print_integer put' negative abs_val zero_pad width fmt t)
  unfolding print_integer
  print_integer-R negative abs_val zero_pad width fmt s t h = go (digits_buf fmt abs_val)
    where
      go :
          (r : Run (List ℕ))
          → SameRun R
              (and_then r λ buf. ok (write_number put negative buf zero_pad width s))
              (and_then r λ buf. ok (write_number put' negative buf zero_pad width t))
      go (ok buf) = both_ok _ _ (write_number-R negative buf zero_pad width s t h)
      go (stop w) = both_stop w

  convert_text-R :
      (f : List ℕ) (args : List Arg) (s : S) (t : T)
      → R s t
      → SameRun SameNext (convert_text put f args s) (convert_text put' f args t)
  unfolding convert_text
  convert_text-R f (text (some cs) ∷ args) s t h =
      both_ok _ _ (both_more f args _ _ (write_text-R cs s t h))
  convert_text-R f (text none ∷ args) s t h =
      both_ok _ _ (both_more f args _ _ (write_text-R (codes "(null)") s t h))
  convert_text-R f (integer n ∷ args) s t h = both_stop undefined
  convert_text-R f [] s t h = both_stop undefined

  then_more :
      (f : List ℕ) (args : List Arg) (x : Run S) (y : Run T)
      → SameRun R x y
      → SameRun SameNext (and_then x λ s. ok (more f args s)) (and_then y λ t. ok (more f args t))
  then_more f args _ _ (both_stop w) = both_stop w
  then_more f args _ _ (both_ok s t h) =
      both_ok (more f args s) (more f args t) (both_more f args s t h)

  convert_integer-R :
      (w fmt : ℕ) (zero_pad : Bool) (width : ℕ) (f : List ℕ) (args : List Arg) (s : S) (t : T)
      → R s t
      → SameRun SameNext
          (convert_integer put w fmt zero_pad width f args s)
          (convert_integer put' w fmt zero_pad width f args t)
  unfolding convert_integer
  convert_integer-R w fmt zero_pad width f (integer n ∷ args) s t h =
      let v = n % 2 ^ w in
      let negative = fmt == b'd' && leb (2 ^ (w - 1)) v in
      let abs_val = if negative then 2 ^ w - v else v in
      then_more f args (print_integer put negative abs_val zero_pad width fmt s)
        (print_integer put' negative abs_val zero_pad width fmt t)
        (print_integer-R negative abs_val zero_pad width fmt s t h)
  convert_integer-R w fmt zero_pad width f (text cs ∷ args) s t h = both_stop undefined
  convert_integer-R w fmt zero_pad width f [] s t h = both_stop undefined

  convert_number-R :
      (w : ℕ) (zero_pad : Bool) (width : ℕ) (f : List ℕ) (args : List Arg) (s : S) (t : T)
      → R s t
      → SameRun SameNext
          (convert_number put w zero_pad width f args s)
          (convert_number put' w zero_pad width f args t)
  unfolding convert_number
  convert_number-R w zero_pad width [] args s t h =
      both_ok (more [] args (put 0 (put b'%' s))) (more [] args (put' 0 (put' b'%' t))) (
        both_more [] args (put 0 (put b'%' s)) (put' 0 (put' b'%' t))
          (keep 0 (put b'%' s) (put' b'%' t) (keep b'%' s t h)))
  convert_number-R w zero_pad width (c ∷ f) args s t h =
      either (c == b'd' || c == b'u' || c == b'x' || c == b'X')
        (convert_integer-R w c zero_pad width f args s t h)
        (both_ok (more f args (put c (put b'%' s))) (more f args (put' c (put' b'%' t))) (
          both_more f args (put c (put b'%' s)) (put' c (put' b'%' t))
            (keep c (put b'%' s) (put' b'%' t) (keep b'%' s t h))))

  convert_specifier-R :
      (long_bits : ℕ) (zero_pad : Bool) (width : ℕ) (f : List ℕ) (args : List Arg) (s : S) (t : T)
      → R s t
      → SameRun SameNext
          (convert_specifier put long_bits zero_pad width f args s)
          (convert_specifier put' long_bits zero_pad width f args t)
  unfolding convert_specifier
  convert_specifier-R long_bits zero_pad width [] args s t h =
      both_ok (done s) (done t) (both_done s t h)
  convert_specifier-R long_bits zero_pad width (c ∷ f) args s t h =
      either (c == b's') (convert_text-R f args s t h) (
        convert_number-R (arg_bits long_bits (parse_length (c ∷ f)).0) zero_pad width
          (parse_length (c ∷ f)).1 args s t h)

  convert-R :
      (long_bits : ℕ) (f : List ℕ) (args : List Arg) (s : S) (t : T)
      → R s t
      → SameRun SameNext (convert put long_bits f args s) (convert put' long_bits f args t)
  unfolding convert
  convert-R long_bits [] args s t h = both_ok (done s) (done t) (both_done s t h)
  convert-R long_bits (c ∷ f) args s t h =
      let flag = parse_zero (c ∷ f) in
      let width = parse_width flag.1 0 in
      either (c == b'%')
        (both_ok (more f args (put b'%' s)) (more f args (put' b'%' t))
          (both_more f args (put b'%' s) (put' b'%' t) (keep b'%' s t h)))
        (either (ltb width.0 (2 ^ 31))
          (convert_specifier-R long_bits flag.0 width.0 width.1 args s t h) (both_stop undefined))

  format_step-R :
      (long_bits : ℕ) (f : List ℕ) (args : List Arg) (s : S) (t : T)
      → R s t
      → SameRun SameNext (format_step put long_bits f args s) (format_step put' long_bits f args t)
  unfolding format_step
  format_step-R long_bits [] args s t h = both_ok (done s) (done t) (both_done s t h)
  format_step-R long_bits (c ∷ f) args s t h =
      either (c == b'%') (convert-R long_bits f args s t h) (
        both_ok (more f args (put c s)) (more f args (put' c t))
          (both_more f args (put c s) (put' c t) (keep c s t h)))

  pub data SameOption : Option S → Option T → Type 0 where
    both_none : SameOption none none
    both_some : (s : S) (t : T) → R s t → SameOption (some s) (some t)

  pub format_loop-R :
      (long_bits fuel : ℕ) (f : List ℕ) (args : List Arg) (s : S) (t : T)
      → R s t
      → SameRun SameOption
          (format_loop put long_bits fuel f args s)
          (format_loop put' long_bits fuel f args t)
  unfolding format_loop
  format_loop-R long_bits zero f args s t h = both_ok none none both_none
  format_loop-R long_bits (suc fuel) f args s t h =
      go (format_step put long_bits f args s) (format_step put' long_bits f args t)
        (format_step-R long_bits f args s t h)
        (λ f' args' s' t' h'. format_loop-R long_bits fuel f' args' s' t' h')
    where
      go :
          (x : Run (Next S)) (y : Run (Next T))
          → SameRun SameNext x y
          → ((f' : List ℕ) (args' : List Arg) (s' : S) (t' : T)
              → R s' t'
              → SameRun SameOption
                  (format_loop put long_bits fuel f' args' s')
                  (format_loop put' long_bits fuel f' args' t'))
          → SameRun SameOption
              (and_then x λ next. elim next [
                | done s' ↦ ok (some s')
                | more f' args' s' ↦ format_loop put long_bits fuel f' args' s'
              ])
              (and_then y λ next. elim next [
                | done s' ↦ ok (some s')
                | more f' args' s' ↦ format_loop put' long_bits fuel f' args' s'
              ])
      go _ _ (both_stop w) rest = both_stop w
      go _ _ (both_ok _ _ (both_done s' t' h')) rest =
          both_ok (some s') (some t') (both_some s' t' h')
      go _ _ (both_ok _ _ (both_more f' args' s' t' h')) rest = rest f' args' s' t' h'
