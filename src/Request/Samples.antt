-- ===== src/Request/Samples.antt =====
-- librcom/src/request.c: a parser that takes all bytes up to a line feed for the URI, and one that
-- refuses all bytes, to show that such parsers exist.
use rcom.Request.{Call, Parser, url, headers_complete, message_complete}
use rcom.Base.{ℕ, arith, List, [], ◌≤◌, ◌∷◌, length, if◌then◌else◌, ◌==◌, Bytes}

unfoldable pub line_calls : Bytes → List Call × ℕ
line_calls [] = ([], 0)
line_calls (b ∷ bs) =
    if b == 10 then (headers_complete 1 ∷ message_complete ∷ [], 1) else (url (b ∷ []) ∷ [], 1)

pub line_bound : (b : Bytes) → (line_calls b).1 ≤ length b
unfolding line_calls
line_bound [] = omega arith
line_bound (b ∷ bs) = ground arith

pub zero_le : (n : ℕ) → 0 ≤ n
zero_le n = omega arith

unfoldable pub line_parser : Parser
unfolding line_calls
line_parser = record {
  State = Unit {0};
  start = tt;
  feed = λ s b. (s, (line_calls b).0, (line_calls b).1);
  fail = λ s b. (s, 0);
  feed_bound = λ s b. line_bound b;
  fail_bound = λ s b. zero_le (length b);
}

unfoldable pub refusing_parser : Parser
refusing_parser = record {
  State = Unit {0};
  start = tt;
  feed = λ s b. (s, [], 0);
  fail = λ s b. (s, 0);
  feed_bound = λ s b. zero_le (length b);
  fail_bound = λ s b. zero_le (length b);
}
