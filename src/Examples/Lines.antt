-- ===== src/Examples/Lines.antt =====
-- A network with a queue of bytes for each socket, in both directions.
use gnat.Base.{
  ℕ, sym, ◌≡◌, refl, ap, ◌∙◌, arith, List, [], ◌++◌, true, Bool-cases, inl, inr, Option, none, some,
  ◌==◌, ==_self, ==_iff, if◌then◌else◌, length, take, drop, ltb, ltb-false, take-append,
  drop-append, length-append,
}
use gnat.Base.Outcome.{done, Prog}
use gnat.Connection.{ClientConnection, unknown}
use gnat.Server.Service.{Hub}
use mathlib.Core.List.{append_assoc}
use mathlib.Core.Path.{fun_ext}

-- The bytes that wait on each socket, and those that each was sent.
pub record Lines : Type 0 where
  pub incoming : ℕ → List ℕ
  pub sent : ℕ → List ℕ

abbrev pub at : {A : Type 0} → ℕ → A → (ℕ → A) → ℕ → A
at s x f n = if n == s then x else f n

at-at : {A : Type 0} (s : ℕ) (x y : A) (f : ℕ → A) → at s x (at s y f) ≡ at s x f
at-at s x y f =
    fun_ext λ n. elim (Bool-cases (n == s)) [ inl same ↦ rw same refl | inr other ↦ rw other refl ]

abbrev pub arrive : ℕ → List ℕ → Lines → Lines
arrive s bytes w = record w { incoming = at s (bytes ++ w.incoming s) w.incoming }

abbrev pub post : ℕ → List ℕ → Lines → Lines
post s bytes w = record w { sent = λ n. w.sent n ++ (if n == s then bytes else []) }

abbrev pub skip : ℕ → ℕ → Lines → Lines
skip s n w = record w { incoming = at s (drop n (w.incoming s)) w.incoming }

unfoldable pub lines_read : ℕ → Prog (ℕ × Lines) (Option (List ℕ))
lines_read n (s, w) =
    if ltb (length (w.incoming s)) n
    then done (none, (s, w))
    else done (some (take n (w.incoming s)), (s, skip s n w))

abbrev pub lines : ClientConnection ℕ Lines
lines = record {
  read = lines_read;
  write = λ bytes (s, w). done (true, (s, post s bytes w));
  write_partial = λ bytes (s, w). done (true, (s, post s bytes w));
  drain = λ n (s, w). done (true, (s, skip s n w));
  close = λ s. done (tt, s);
  id = λ s. s.0;
  connection_type = λ s. unknown;
  set_connection_type = λ t s. s;
  create_heap_copy = λ s. done (s.0, s);
}

pub skip-arrive :
    (s : ℕ) (xs rest : List ℕ) (w : Lines)
    → skip s (length xs) (arrive s (xs ++ rest) w) ≡ arrive s rest w
skip-arrive s xs rest w =
    ap (λ (f : ℕ → List ℕ). record w { incoming = f })
      (rw
        (
          ==_self s,
          append_assoc xs rest (w.incoming s),
          drop-append (length xs) xs (rest ++ w.incoming s) refl,
        )
        (at-at s (rest ++ w.incoming s) _ w.incoming))

lines_read-front :
    (s : ℕ) (xs tail : List ℕ) (w : Lines)
    → w.incoming s ≡ xs ++ tail
    → lines_read (length xs) (s, w) ≡ done (some xs, (s, skip s (length xs) w))
unfolding lines_read
lines_read-front s xs tail w here =
    rw
      (
        here,
        ltb-false (length (xs ++ tail)) (length xs) (omega (arith, length-append xs tail)),
        take-append (length xs) xs tail refl,
      )
      refl

pub lines_read-arrive :
    (s : ℕ) (xs rest : List ℕ) (w : Lines)
    → lines_read (length xs) (s, arrive s (xs ++ rest) w) ≡ done (some xs, (s, arrive s rest w))
lines_read-arrive s xs rest w =
    lines_read-front s xs (rest ++ w.incoming s) (arrive s (xs ++ rest) w)
      (rw (==_self s) (append_assoc xs rest (w.incoming s)))
    ∙ ap (λ (v : Lines). done (some xs, (s, v))) (skip-arrive s xs rest w)

pub incoming-arrive :
    (n s : ℕ) (bytes : List ℕ) (w : Lines)
    → (arrive s bytes w).incoming n ≡ (if n == s then bytes else []) ++ w.incoming n
incoming-arrive n s bytes w = elim (Bool-cases (n == s)) [
  | inl same ↦ rw same (ap (λ (t : ℕ). bytes ++ w.incoming t) (sym ((==_iff n s).0 same)))
  | inr other ↦ rw other refl
]

-- Bytes in front that were skipped arrive again.
pub arrive-skip :
    (s : ℕ) (xs rest : List ℕ) (w : Lines)
    → w.incoming s ≡ xs ++ rest
    → w ≡ arrive s xs (skip s (length xs) w)
arrive-skip s xs rest w here =
    ap (λ (f : ℕ → List ℕ). record w { incoming = f })
      (fun_ext λ n. elim (Bool-cases (n == s)) [
        | inl same ↦
            rw (same, ==_self s)
              (ap (λ (t : ℕ). w.incoming t) ((==_iff n s).0 same)
                ∙ here
                ∙ ap (λ (ys : List ℕ). xs ++ ys)
                    (sym (
                      ap (λ (ys : List ℕ). drop (length xs) ys) here
                      ∙ drop-append (length xs) xs rest refl)))
        | inr other ↦ rw other refl
      ])

abbrev pub lines_hub : Hub lines
lines_hub = record {
  socket = λ s. s;
  sent = λ n w. w.sent n;
  pending = λ n w. w.incoming n;
  post = post;
  arrive = arrive;
  writes = λ bytes s w. refl;
  writes_partial = λ bytes s w. refl;
  sent-post = λ n s bytes w. refl;
  sent-arrive = λ n s bytes w. refl;
  post-arrive = λ s t xs ys w. refl;
  pending-post = λ n s bytes w. refl;
  pending-arrive = incoming-arrive;
  splits = λ s xs rest w here. (skip s (length xs) w, arrive-skip s xs rest w here);
  delivers = λ s w. record { front = λ xs rest. lines_read-arrive s xs rest w };
  drains = λ s w. record {
    front = λ xs rest. ap (λ (v : Lines). done (true, (s, v))) (skip-arrive s xs rest w);
  };
  copy = λ s. s;
  copies = λ s w. refl;
  socket-copy = λ s. refl;
  id-socket = λ s w. refl;
  socket-set_type = λ t s. refl;
  closes = λ s w. (w, refl, λ n. refl, λ n. refl);
}
