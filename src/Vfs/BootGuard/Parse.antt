-- ===== src/Vfs/BootGuard/Parse.antt =====
-- vfs/boot_guard.rs, `GuardRecord::parse`: one line of a marker is read back as it was written.
use meta_hybrid_mount.Text.Graphic.{
  one_line, trim_graphic, All-append, IsPlain, IsGraphic, IsPlainOption,
}
use meta_hybrid_mount.Prelude.{
  ltb, true, Bool, ℕ, all, ◌≡◌, ◌&&◌, not, refl, ap, false, Option, none, some, [], ◌∷◌, ◌++◌, All,
  arith, ◌==◌, append_assoc, sym,
}
use meta_hybrid_mount.Text.{Text}
use meta_hybrid_mount.Text.Lines.{newline, equals_sign, lines, lines-append, split_equals-append}
use meta_hybrid_mount.Vfs.BootGuard.{GuardRecord, set_key, read_line, read_lines, key_line}

-- A key of a marker: no white space and no equals sign.
abbrev pub IsKey : Text → Type 0
IsKey key = All IsGraphic key × All (λ c. c == equals_sign ≡ false) key

pub read_line-key :
    (key value : Text) (r : GuardRecord)
    → IsKey key
    → IsPlain value
    → read_line (key ++ (equals_sign ∷ value)) r ≡ set_key key value r
unfolding read_line
read_line-key key value r (g, n) (h, e) =
    rw
      (trim_graphic (key ++ (equals_sign ∷ value))
        (All-append IsGraphic key (equals_sign ∷ value) g ((omega arith, omega arith), h)))
      (rw (split_equals-append key value n)
        (rw (trim_graphic value h, trim_graphic key g) (rw e refl)))

-- What a line of an optional value sets.
abbrev pub set_option : Text → Option Text → GuardRecord → GuardRecord
set_option key none r = r
set_option key (some value) r = set_key key value r

pub read_lines-key_line :
    (key : Text) (value : Option Text) (rest : Text) (r : GuardRecord)
    → IsKey key
    → IsPlainOption value
    → read_lines (lines (key_line (key ++ (equals_sign ∷ [])) value ++ rest)) r
      ≡ read_lines (lines rest) (set_option key value r)
unfolding read_lines
read_lines-key_line key none rest r k h = refl
read_lines-key_line key (some value) rest r k h =
    let line = key ++ (equals_sign ∷ value) in
    let graphic =
      All-append IsGraphic key (equals_sign ∷ value) k.0 ((omega arith, omega arith), h.0) in
    rw shape (
      rw (lines-append line rest (one_line line graphic))
        (ap (λ q. read_lines (lines rest) q) (read_line-key key value r k h)))
  where
    shape :
        ((key ++ (equals_sign ∷ [])) ++ (value ++ (newline ∷ []))) ++ rest
        ≡ (key ++ (equals_sign ∷ value)) ++ (newline ∷ rest)
    shape = rw (append_assoc (key ++ (equals_sign ∷ [])) (value ++ (newline ∷ [])) rest) (
        rw (append_assoc key (equals_sign ∷ []) ((value ++ (newline ∷ [])) ++ rest)) (
          rw (append_assoc value (newline ∷ []) rest)
            (sym (append_assoc key (equals_sign ∷ value) (newline ∷ rest)))))

-- Keys are literals, so that they are keys is computed.
abbrev is_key_byte : ℕ → Bool
is_key_byte c = ltb 32 c && (ltb c 127 && not (c == equals_sign))

pub literal-IsKey : (key : Text) → all is_key_byte key ≡ true → IsKey key
literal-IsKey [] h = (tt, tt)
literal-IsKey (c ∷ key) h =
    let ih = literal-IsKey key (ground arith) in
    (((ground arith, ground arith), ih.0), (ground arith, ih.1))
