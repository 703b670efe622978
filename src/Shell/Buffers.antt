-- ===== src/Shell/Buffers.antt =====
-- Every byte of input keeps the shell's buffers well formed, whatever command it runs.
use ross_os.Base.{
  ℕ, zero, suc, ◌+◌, ◌-◌, ◌≤◌, ◌<◌, ◌≡◌, ap, sym, ◌∙◌, subst, List, [], ◌∷◌, ◌++◌, Option, none,
  some, true, ◌==◌, ltb, if_both, Bool-cases, inl, inr, min, length, take, set, get_or, length-set,
  length-take, get_or-set_ne, get_or-set_self, arith,
}
use ross_os.Base.Bytes.{length-overwrite, get_or-overwrite_in, lt_or_le}
use ross_os.Base.Text.{codes, same_bytes, split_whitespace, trim}
use ross_os.Vfs.{slash, open_path}
use ross_os.Writer.{fg}
use ross_os.Shell.{
  State, Shell, Services, max_line, max_cwd, set_cwd, resolve_in, resolve, cwd, starts_with_slash,
  ends_with_slash, activate, log, say_char, initial_cwd,
}
use ross_os.Shell.Files.{is_shown, cmd_cd, cd_to, is_directory}
use ross_os.Shell.Keeps.{
  Keeps, keeps, cmd_help-kept, cmd_memory-kept, cmd_uptime-kept, cmd_lspci-kept, cmd_disk-kept,
  run_ls-kept, run_cat-kept, run_write-kept, run_exec-kept,
}
use ross_os.Shell.Line.{IsBuffers, IsShell}
use ross_os.Shell.Run.{
  Outcome, returned, rebooting, line, first_word, later_words, first_or, delete_byte, type_byte,
  dispatch, execute, next_line, enter_line, active_byte, handle_in, handle_byte, unknown,
}

-- Of the shell that the outcome leaves.
abbrev pub Leaves : {World Node : Type 0} → Outcome World Node → Type 0
Leaves (returned s) = IsShell s
Leaves (rebooting s) = IsShell s

starts-take :
    (n : ℕ) (buf : List ℕ) → 1 ≤ n → get_or buf 0 0 ≡ slash → starts_with_slash (take n buf) ≡ true
starts-take zero buf h e = absurd (omega (arith, h))
starts-take (suc n) [] h e = absurd (omega (arith, e))
starts-take (suc n) (c ∷ cs) h e = ground arith

starts-append : (xs ys : List ℕ) → starts_with_slash xs ≡ true → starts_with_slash (xs ++ ys) ≡ true
starts-append [] ys h = absurd (ground arith)
starts-append (x ∷ xs) ys h = h

first_of :
    (len : ℕ) (path : List ℕ)
    → 1 ≤ len
    → starts_with_slash path ≡ true
    → get_or (take len path) 0 0 ≡ slash
first_of zero path l h = absurd (omega (arith, l))
first_of (suc len) [] l h = absurd (ground arith)
first_of (suc len) (c ∷ cs) l h = ground arith

not_empty : (path : List ℕ) → starts_with_slash path ≡ true → 1 ≤ length path
not_empty [] h = absurd (ground arith)
not_empty (c ∷ cs) h = omega arith

module _ {World Node : Type 0} where
  Keeps-IsShell : {s t : Shell World Node} → Keeps s t → IsShell s → IsShell t
  Keeps-IsShell (keeps e) ok = subst (λ k. IsBuffers k.1 k.2 k.3 k.4) (sym e) ok

  set_cwd-IsShell :
      (s : Shell World Node) (path : List ℕ)
      → IsShell s
      → starts_with_slash path ≡ true
      → IsShell (set_cwd s path)
  unfolding set_cwd
  set_cwd-IsShell s path ok h = record {
    line_buffer = ok.line_buffer;
    line_fits = ok.line_fits;
    printable = ok.printable;
    cwd_buffer =
        length-overwrite s.cwd_buf 0 (take (min (length path) max_cwd) path) ∙ ok.cwd_buffer;
    cwd_fits = omega arith;
    cwd_some = omega (arith, not_empty path h);
    absolute =
        get_or-overwrite_in s.cwd_buf 0 (take (min (length path) max_cwd) path) 0
          (omega (arith, length-take (min (length path) max_cwd) path, not_empty path h))
          (omega (arith, ok.cwd_buffer))
        ∙ first_of (min (length path) max_cwd) path (omega (arith, not_empty path h)) h;
  }

  resolve_absolute :
      (s : Shell World Node) (path : List ℕ) → IsShell s → starts_with_slash (resolve s path) ≡ true
  unfolding resolve_in
  resolve_absolute s path ok = elim (Bool-cases (starts_with_slash path)) [
    | inl given ↦ rw given given
    | inr relative ↦ rw relative (
        if_both (λ p. starts_with_slash p ≡ true) (ends_with_slash (cwd s)) _ _
          (starts-append (cwd s) path rooted) (starts-append (cwd s) (slash ∷ path) rooted))
  ]
    where
      rooted : starts_with_slash (cwd s) ≡ true
      rooted = starts-take s.cwd_len s.cwd_buf ok.cwd_some ok.absolute

module _ {World Node : Type 0} (services : Services World Node) where
  cmd_cd-IsShell :
      (s : Shell World Node) (raw : List ℕ) → IsShell s → IsShell (cmd_cd services s raw)
  unfolding cmd_cd cd_to
  cmd_cd-IsShell s raw ok = from_node (open_path services.ops s.world s.vfs (resolve s raw))
    where
      from_node : (o : Option Node) → IsShell (cd_to services s (resolve s raw) o)
      from_node none = ok
      from_node (some node) =
          if_both IsShell (is_directory (services.ops.attribute s.world node)) _ _
            (set_cwd-IsShell s (resolve s raw) ok (resolve_absolute s raw ok)) ok

  dispatch-Leaves :
      (s : Shell World Node) (command : List ℕ) (args : List (List ℕ))
      → IsShell s
      → Leaves (dispatch services s command args)
  unfolding dispatch unknown
  dispatch-Leaves s command args ok =
      if_both Leaves (same_bytes command (codes "help")) _ _
        (Keeps-IsShell (cmd_help-kept services s) ok)
        (if_both Leaves (same_bytes command (codes "clear")) _ _ ok (
          if_both Leaves (same_bytes command (codes "memory")) _ _
            (Keeps-IsShell (cmd_memory-kept services s) ok)
            (if_both Leaves (same_bytes command (codes "uptime")) _ _
              (Keeps-IsShell (cmd_uptime-kept services s) ok)
              (if_both Leaves (same_bytes command (codes "version")) _ _ ok (
                if_both Leaves (same_bytes command (codes "pwd")) _ _ ok (
                  if_both Leaves (same_bytes command (codes "cd")) _ _
                    (cmd_cd-IsShell s (first_or args initial_cwd) ok)
                    (if_both Leaves (same_bytes command (codes "ls")) _ _
                      (Keeps-IsShell (run_ls-kept services s args) ok)
                      (if_both Leaves (same_bytes command (codes "lspci")) _ _
                        (Keeps-IsShell (cmd_lspci-kept services s) ok)
                        (if_both Leaves (same_bytes command (codes "disk")) _ _
                          (Keeps-IsShell (cmd_disk-kept services s) ok)
                          (if_both Leaves (same_bytes command (codes "cat")) _ _
                            (Keeps-IsShell (run_cat-kept services s args) ok)
                            (if_both Leaves (same_bytes command (codes "write")) _ _
                              (Keeps-IsShell (run_write-kept services s args) ok)
                              (if_both Leaves (same_bytes command (codes "reboot")) _ _ ok (
                                if_both Leaves (same_bytes command (codes "exec")) _ _
                                  (Keeps-IsShell (run_exec-kept services s args) ok)
                                  (if_both Leaves (same_bytes command []) _ _ ok ok))))))))))))))

  next_line-Leaves : (o : Outcome World Node) → Leaves o → Leaves (next_line services o)
  next_line-Leaves (rebooting s) ok = ok
  next_line-Leaves (returned s) ok = record {
    line_buffer = ok.line_buffer;
    line_fits = omega arith;
    printable = λ i h. absurd (omega (arith, h));
    cwd_buffer = ok.cwd_buffer;
    cwd_fits = ok.cwd_fits;
    cwd_some = ok.cwd_some;
    absolute = ok.absolute;
  }

  execute-Leaves :
      (s : Shell World Node) (input : List ℕ) → IsShell s → Leaves (execute services s input)
  unfolding execute
  execute-Leaves s input ok =
      dispatch-Leaves (log (log (log s (codes "[SHELL] Executing: ")) input) (codes "\n"))
        (first_word (split_whitespace input)) (later_words (split_whitespace input)) ok

  enter_line-Leaves : (s : Shell World Node) → IsShell s → Leaves (enter_line services s)
  unfolding enter_line
  enter_line-Leaves s ok =
      next_line-Leaves (execute services (say_char services s b'\n' fg) (trim (line s)))
        (execute-Leaves (say_char services s b'\n' fg) (trim (line s)) ok)

  typed :
      (s : Shell World Node) (ch : ℕ)
      → IsShell s
      → is_shown ch ≡ true
      → s.line_len < max_line
      → IsBuffers (set s.line_buf s.line_len ch) (s.line_len + 1) s.cwd_buf s.cwd_len
  typed s ch ok shown room = record {
    line_buffer = length-set s.line_buf s.line_len ch ∙ ok.line_buffer;
    line_fits = omega (arith, room);
    printable = λ i h. elim (lt_or_le i s.line_len) [
      | inl before ↦
          ap is_shown (get_or-set_ne s.line_buf s.line_len i ch 0 (λ e. omega (arith, e, before)))
          ∙ ok.printable i before
      | inr here ↦
          ap (λ k. is_shown (get_or (set s.line_buf s.line_len ch) k 0)) {y = s.line_len}
            (omega (arith, h, here))
          ∙ ap is_shown
              (get_or-set_self s.line_buf s.line_len ch 0 (omega (arith, room, ok.line_buffer)))
          ∙ shown
    ];
    cwd_buffer = ok.cwd_buffer;
    cwd_fits = ok.cwd_fits;
    cwd_some = ok.cwd_some;
    absolute = ok.absolute;
  }

  type_byte-IsShell :
      (s : Shell World Node) (ch : ℕ)
      → IsShell s
      → is_shown ch ≡ true
      → IsShell (type_byte services s ch)
  unfolding type_byte
  type_byte-IsShell s ch ok shown = elim (Bool-cases (ltb s.line_len max_line)) [
    | inl more ↦
        let room : s.line_len < max_line = ground arith in rw more (typed s ch ok shown room)
    | inr full ↦ rw full ok
  ]

  delete_byte-IsShell : (s : Shell World Node) → IsShell s → IsShell (delete_byte services s)
  unfolding delete_byte
  delete_byte-IsShell s ok = if_both IsShell (ltb 0 s.line_len) _ _ shorter ok
    where
      shorter : IsBuffers s.line_buf (s.line_len - 1) s.cwd_buf s.cwd_len
      shorter = record {
        line_buffer = ok.line_buffer;
        line_fits = omega (arith, ok.line_fits);
        printable = λ i h. ok.printable i (omega (arith, h));
        cwd_buffer = ok.cwd_buffer;
        cwd_fits = ok.cwd_fits;
        cwd_some = ok.cwd_some;
        absolute = ok.absolute;
      }

  active_byte-Leaves :
      (s : Shell World Node) (ch : ℕ) → IsShell s → Leaves (active_byte services s ch)
  unfolding active_byte
  active_byte-Leaves s ch ok =
      if_both Leaves (ch == b'\n') (enter_line services s) _ (enter_line-Leaves s ok) (
        if_both Leaves (ch == 0x08) (returned (delete_byte services s)) _ (delete_byte-IsShell s ok)
          (elim (Bool-cases (is_shown ch)) [
            | inl shown ↦ rw shown (type_byte-IsShell s ch ok shown)
            | inr hidden ↦ rw hidden ok
          ]))

  handle_in-Leaves :
      (state : State) (s : Shell World Node) (ch : ℕ)
      → IsShell s
      → Leaves (handle_in services state s ch)
  unfolding handle_in activate
  handle_in-Leaves State.splash s ch ok = if_both Leaves (ch == b'\n') _ _ ok ok
  handle_in-Leaves State.active s ch ok = active_byte-Leaves s ch ok

  -- Every byte of input, whatever command it runs, keeps the buffers of the shell well formed,
  -- if they were: a line of at most 128 printable bytes in its buffer, and a working directory
  -- of 1 to 64 bytes in its own that starts with a slash.
  pub handle_byte-IsShell :
      (s : Shell World Node) (ch : ℕ) → IsShell s → Leaves (handle_byte services s ch)
  unfolding handle_byte
  handle_byte-IsShell s ch ok = handle_in-Leaves s.state s ch ok
