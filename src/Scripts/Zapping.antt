-- ===== src/Scripts/Zapping.antt =====
-- The loop of examples/ZAP_strManager/src/main.cpp against the book of sources.
use Prim.Native.String.{String}
use str_manager.Prelude.{
  ℕ, suc, ◌+◌, ◌%◌, ◌<◌, ◌≡◌, refl, ap, sym, ◌∙◌, Bool, true, false, some, List, [], ◌∷◌, arith,
  Bool-cases, inl, inr, if◌then◌else◌,
}
use str_manager.Prelude
use str_manager.Int.{ℤ, pos}
use str_manager.Run.{ok, Returns}
use str_manager.Text.{same_text}
use str_manager.Text.Decimal.{atoi}
use str_manager.System.{System}
use str_manager.StreamList.{exist_destination}
use str_manager.StreamList.Stats.{add_s32}
use str_manager.StreamList.Destinations.{remove}
use str_manager.Udp
use str_manager.Udp.{UdpStream}
use str_manager.Worker.Lists.{extend}
use str_manager.Manager.{Manager}
use str_manager.Manager.Book.{book, adjust}
use str_manager.Manager.Book.Forwarders.{
  AllForward, book-Booked, add_destination-Rebooked, remove_destination-Rebooked,
}
use str_manager.Scripts.{Outcome, continues, Zap, zap_round, zap_loop}

-- How many lines are empty.
abbrev pub empty_lines : {S : Type 0} → List (String × S) → ℕ
empty_lines [] = 0
empty_lines (line ∷ lines) =
    if same_text line.0 "" then suc (empty_lines lines) else empty_lines lines

module _ {S : Type 0} (sys : System S) (k : ℕ) where
  -- The three channels are in the book, from the sources `us`, and the program's destination is one of
  -- the channel that it counts, and of no other. No call has failed.
  pub record Tuned (us : ℕ → UdpStream) (z : Zap) : Type 0 where
    pub range : z.actual < 3
    pub fine : z.res ≡ pos 0
    pub forwards : AllForward z.manager
    pub seen : S
    pub tuned :
        (j : ℕ)
        → j < 3
        → book z.manager (pos j)
          ≡ some (
            some (us j),
            if Prelude.◌==◌ j z.actual
                then Udp.make sys seen (pos 3) z.ip (atoi z.port) ∷ []
                else [],
          )

  -- The only destination is found and taken out.
  remove_only :
      (s : S) (ip : String) (port : ℤ) → remove (pos 3) (Udp.make sys s (pos 3) ip port ∷ []) ≡ []
  unfolding remove Udp.make
  remove_only s ip port = refl

  next_range : (a : ℕ) → (a + 1) % 3 < 3
  next_range a = omega arith

  next_other : (a : ℕ) → a < 3 → Prelude.◌==◌ ((a + 1) % 3) a ≡ false
  next_other a h = ground arith

  module _ (us : ℕ → UdpStream) (z : Zap) (before : Tuned us z) (s : S) where
    abbrev next : ℕ
    next = (z.actual + 1) % 3

    -- The round of an empty line.
    abbrev Next : Outcome Zap → Type 0
    Next o = (z' : Zap) × (o ≡ continues z') × Tuned us z' × (z'.actual ≡ next)

    -- The two calls of the round, in the book.
    moved :
        (j : ℕ) (old : List UdpStream)
        → old ≡ (
            if Prelude.◌==◌ j z.actual
            then Udp.make sys before.seen (pos 3) z.ip (atoi z.port) ∷ []
            else [])
        → (if Prelude.◌==◌ j next
            then extend
                (Udp.make sys s (pos 3) z.ip (atoi z.port))
                (if Prelude.◌==◌ j z.actual then remove (pos 3) old else old)
            else if Prelude.◌==◌ j z.actual
            then remove (pos 3) old
            else old)
          ≡ (if Prelude.◌==◌ j next then Udp.make sys s (pos 3) z.ip (atoi z.port) ∷ [] else [])
    unfolding exist_destination
    moved j old e = elim (Bool-cases (Prelude.◌==◌ j z.actual)) [
      | inl here ↦
          let gone : remove (pos 3) old ≡ [] =
            ap (remove (pos 3)) (e ∙ rw here refl) ∙ remove_only before.seen z.ip (atoi z.port) in
          rw (here, gone) refl
      | inr away ↦ let bare : old ≡ [] = e ∙ rw away refl in rw (away, bare) refl
    ]

    moved-Tuned :
        (m m' : Manager)
        → AllForward m'
        → ((j : ℤ) → book m j ≡ adjust (pos z.actual) (remove (pos 3)) (book z.manager) j)
        → ((j : ℤ)
            → book m' j
              ≡ adjust (pos next) (extend (Udp.make sys s (pos 3) z.ip (atoi z.port))) (book m) j)
        → Tuned us (record z { manager = m'; actual = next; res = pos 0 })
    moved-Tuned m m' forwards gone come = record {
      range = next_range z.actual;
      fine = refl;
      forwards = forwards;
      seen = s;
      tuned = λ j h. come (pos j) ∙ ground (arith, gone (pos j), before.tuned j h, moved j _ refl);
    }

    zap_round-Next :
        (line : String) → same_text line "" ≡ true → Returns (zap_round sys k z line s) Next
    unfolding zap_round add_s32
    zap_round-Next line blank =
        let old =
          book-Booked z.manager (pos z.actual) (us z.actual) _
            (before.tuned z.actual before.range) in
        let ((r, m), ran, gone) =
          remove_destination-Rebooked z.manager (pos z.actual) before.forwards old (pos 3) in
        let there : book m (pos next) ≡ some (some (us next), []) =
          gone.books (pos next)
          ∙ ground
              (arith, before.tuned next (next_range z.actual), next_other z.actual before.range) in
        let new = book-Booked m (pos next) (us next) [] there in
        let ((r', m'), ran', come) =
          add_destination-Rebooked m (pos next) gone.forwards new sys (pos 3) z.ip (atoi z.port)
            s in
        rw (blank, ran, ran', gone.code, come.code, before.fine)
          (_, refl, (_, refl, moved-Tuned m m' come.forwards gone.books come.books, refl))

    zap_round-skips :
        (line : String) → same_text line "" ≡ false → zap_round sys k z line s ≡ ok (continues z)
    unfolding zap_round
    zap_round-skips line text = rw text refl

  -- If the three channels are in the book and only channel `actual` has the program's destination, then
  -- on every input the loop goes on without an error. With each empty line the destination moves to the
  -- next of the three channels, in a circle, so that again exactly one channel has it.
  pub zap_loop-Tuned :
      (us : ℕ → UdpStream) (z : Zap) (lines : List (String × S))
      → Tuned us z
      → Returns (zap_loop sys k z lines) λ o.
        (z' : Zap) × (o ≡ continues z')
        × Tuned us z'
        × (z'.actual ≡ (z.actual + empty_lines lines) % 3)
  unfolding zap_loop
  zap_loop-Tuned us z [] before = (_, refl, (z, refl, before, omega (arith, before.range)))
  zap_loop-Tuned us z (line ∷ lines) before = elim (Bool-cases (same_text line.0 "")) [
    | inl blank ↦
        let (o, ran, (z₁, goes, after, turned)) = zap_round-Next us z before line.1 line.0 blank in
        let (o', ran', (z', goes', last, turned')) = zap_loop-Tuned us z₁ lines after in
        rw (ran, goes, ran', blank) (_, refl, (z', goes', last, omega (arith, turned, turned')))
    | inr text ↦
        rw (zap_round-skips us z before line.1 line.0 text, text) (zap_loop-Tuned us z lines before)
  ]
