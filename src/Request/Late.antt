-- ===== src/Request/Late.antt =====
-- librcom/src/request.c: when a request is refused.
use rcom.Request.{
  waits, crashes, stops, goes, returns, resume, Round, Outcome, Request, read_request, read_bytes,
  round, Parser,
}
use rcom.Net.{Recv, chunk, shutdown, again, broken}
use rcom.Http.{Header}
use rcom.Rlib.{Lists, Strings}
use rcom.Base.{negsuc, pos, ℕ, arith, ap, Bool, List, [], ◌≡◌, ◌∷◌, ◌++◌, ℤ, All, Bytes, refl}

abbrev pub IsPiece : Recv → Type 0
IsPiece (chunk b bs) = Unit
IsPiece shutdown = ⊥
IsPiece again = ⊥
IsPiece broken = ⊥

abbrev pub IsEnd : Recv → Type 0
IsEnd (chunk b bs) = ⊥
IsEnd shutdown = Unit
IsEnd again = Unit
IsEnd broken = Unit

-- the errors that `request_parse_html` itself sends
abbrev pub errors_at : Recv → List ℕ
errors_at (chunk b bs) = []
errors_at shutdown = []
errors_at again = 500 ∷ []
errors_at broken = 500 ∷ []

module _ (S : Strings) (L : Lists Header) (only_headers : Bool) (P : Parser) where
  -- one byte is never refused
  round-byte :
      (st : P.State) (r : Request) (b : ℕ) {v : ℤ} {r' : Request}
      → round S L only_headers P st r (b ∷ []) ≡ stops v r'
      → v ≡ pos 0
  unfolding round
  round-byte st r b h =
      ground (arith, P.feed_bound st (b ∷ []), P.fail_bound (P.feed st (b ∷ [])).0 (b ∷ []))

  resume-refused :
      (x : Round P.State) (es : List Recv) (more : P.State → Request → Outcome) {r' : Request}
      {sent : List ℕ} {rest : List Recv}
      → ((v : ℤ) (s : Request) → x ≡ stops v s → v ≡ pos 0)
      → resume S L only_headers P x es more ≡ returns (negsuc 0) r' sent rest
      → (st1 : P.State) × (r1 : Request) × (more st1 r1 ≡ returns (negsuc 0) r' sent rest)
  resume-refused crashes es more ok h = absurd (cc)
  resume-refused (stops v s) es more ok h = absurd (ground (arith, ok v s refl))
  resume-refused (goes st r) es more ok h = (st, r, h)

  bytes-refused :
      (more : P.State → Request → Outcome) (es : List Recv) (b : ℕ) (bs : Bytes) (st : P.State)
      (r : Request) {r' : Request} {sent : List ℕ} {rest : List Recv}
      → read_bytes S L only_headers P more es b bs st r ≡ returns (negsuc 0) r' sent rest
      → (st1 : P.State) × (r1 : Request) × (more st1 r1 ≡ returns (negsuc 0) r' sent rest)
  unfolding read_bytes
  bytes-refused more es b [] st r h =
      resume-refused (round S L only_headers P st r (b ∷ [])) es more (λ v s e. round-byte st r b e)
        h
  bytes-refused more es b (c ∷ cs) st r h =
      let (st1, r1, k) =
        resume-refused (round S L only_headers P st r (b ∷ [])) (chunk c cs ∷ es)
          (read_bytes S L only_headers P more es c cs) (λ v s e. round-byte st r b e) h in
      bytes-refused more es c cs st1 r1 k

  end-refused :
      (x : Round P.State) (es : List Recv) {r' : Request} {sent : List ℕ} {rest : List Recv}
      → resume S L only_headers P x es (λ _ _. waits) ≡ returns (negsuc 0) r' sent rest
      → (es ≡ rest) × (sent ≡ [])
  end-refused crashes es h = absurd (cc)
  end-refused (stops v s) es h = ((cc), (cc))
  end-refused (goes st r) es h = absurd (cc)

  -- If `request_parse_html` refuses a request, then `recv` has failed or the stream has ended: every
  -- piece before that was read to its last byte, whatever the HTTP parser made of it. It has sent an error if `recv` has
  -- failed.
  pub refused_late :
      (es : List Recv) (st : P.State) (r : Request) {r' : Request} {sent : List ℕ}
      {rest : List Recv}
      → read_request S L only_headers P es st r ≡ returns (negsuc 0) r' sent rest
      → (pieces : List Recv) × (e : Recv) × All IsPiece pieces
        × IsEnd e
        × (es ≡ pieces ++ e ∷ rest)
        × (sent ≡ errors_at e)
  unfolding read_request
  refused_late [] st r h = absurd (cc)
  refused_late (chunk b bs ∷ es) st r h =
      let (st1, r1, k) = bytes-refused (read_request S L only_headers P es) es b bs st r h in
      let (pieces, e, all, end, same, answered) = refused_late es st1 r1 k in
      (chunk b bs ∷ pieces, e, (tt, all), end, ap (λ t. chunk b bs ∷ t) same, answered)
  refused_late (shutdown ∷ es) st r h =
      let (same, silent) = end-refused (round S L only_headers P st r []) es h in
      ([], shutdown, tt, tt, ap (λ t. shutdown ∷ t) same, silent)
  refused_late (again ∷ es) st r h = ([], again, tt, tt, (cc), (cc))
  refused_late (broken ∷ es) st r h = ([], broken, tt, tt, (cc), (cc))
