-- ===== src/Daemon/Command/Laws.antt =====
-- forward/src/cmd.rs: how the daemon reads a line of the client.
use xdp_nat_forward.Base.{
  ℕ, ◌^◌, ◌==◌, ◌≡◌, ◌∙◌, ap, refl, arith, ◌<◌, Bool, true, false, some, List, [], ◌∷◌, ◌++◌, All,
  inr, or_right,
}
use xdp_nat_forward.Console.Text.{codes, text_eq, is_empty, show}
use xdp_nat_forward.Console.Text.Laws.{IsDigit, show-All, show-nonempty}
use xdp_nat_forward.Daemon.Words.{
  is_whitespace, join, split_whitespace, parse_ipv4, parse_u16, parse_u32, parse_u64, to_uppercase,
  upper,
}
use xdp_nat_forward.Daemon.Words.Pieces.{IsWord, IsPlain, split_whitespace-join}
use xdp_nat_forward.Daemon.Words.Numbers.{from_str_radix-show}
use xdp_nat_forward.Daemon.Command.{
  Command, add, del, list, timeout, query_session, words_of, cmd_str, until_newline, has_newline,
  drop_return, next_line, Action, do_add, do_del, do_list, do_timeout, do_query, parse_line,
  parse_command, parse_parts, parse_add, parse_del, parse_timeout, parse_query,
}

-- Neither the end of a line nor a carriage return.
abbrev IsInLine : ℕ → Type 0
IsInLine c = ((c == b'\n') ≡ false) × ((c == b'\r') ≡ false)

not_space-IsInLine : (c : ℕ) → is_whitespace c ≡ false → IsInLine c
unfolding is_whitespace
not_space-IsInLine c h = (ground arith, ground arith)

has_newline-line : (s : List ℕ) → has_newline (s ++ (b'\n' ∷ [])) ≡ true
has_newline-line [] = refl
has_newline-line (c ∷ s) = or_right (c == b'\n') (has_newline-line s)

until_newline-line : (s : List ℕ) → All IsInLine s → until_newline (s ++ (b'\n' ∷ [])) ≡ s
unfolding until_newline
until_newline-line [] h = refl
until_newline-line (c ∷ s) h = rw (h.0.0, until_newline-line s h.1) refl

drop_return-line : (s : List ℕ) → All IsInLine s → drop_return s ≡ s
drop_return-line [] h = refl
drop_return-line (c ∷ []) h = rw h.0.1 refl
drop_return-line (c ∷ d ∷ s) h = ap (λ t. c ∷ t) (drop_return-line (d ∷ s) h.1)

next_line-line :
    (s : List ℕ) → All IsInLine s → is_empty s ≡ false → next_line (s ++ (b'\n' ∷ [])) ≡ some s
unfolding next_line
next_line-line [] h k = absurd (cc)
next_line-line (c ∷ s) h k =
    rw (has_newline-line (c ∷ s), until_newline-line (c ∷ s) h, drop_return-line (c ∷ s) h) refl

word-IsInLine : (s : List ℕ) → IsPlain is_whitespace s → All IsInLine s
word-IsInLine [] h = tt
word-IsInLine (c ∷ s) h = (not_space-IsInLine c h.0, word-IsInLine s h.1)

IsInLine-append : (s t : List ℕ) → All IsInLine s → All IsInLine t → All IsInLine (s ++ t)
IsInLine-append [] t a b = b
IsInLine-append (c ∷ s) t a b = (a.0, IsInLine-append s t a.1 b)

join-IsInLine : (xs : List (List ℕ)) → All IsWord xs → All IsInLine (join b' ' xs)
unfolding join
join-IsInLine [] h = tt
join-IsInLine (x ∷ []) h = word-IsInLine x h.0.plain
join-IsInLine (x ∷ y ∷ xs) h =
    IsInLine-append x (b' ' ∷ join b' ' (y ∷ xs)) (word-IsInLine x h.0.plain)
      ((refl, refl), join-IsInLine (y ∷ xs) h.1)

append-nonempty : (s t : List ℕ) → is_empty s ≡ false → is_empty (s ++ t) ≡ false
append-nonempty [] t h = absurd (cc)
append-nonempty (c ∷ s) t h = refl

join-nonempty :
    (x : List ℕ) (xs : List (List ℕ)) → is_empty x ≡ false → is_empty (join b' ' (x ∷ xs)) ≡ false
unfolding join
join-nonempty x [] h = h
join-nonempty x (y ∷ xs) h = append-nonempty x (b' ' ∷ join b' ' (y ∷ xs)) h

abbrev has_words : List (List ℕ) → Bool
has_words [] = false
has_words (x ∷ xs) = true

-- Words sent on a line arrive as these words.
line_of_words :
    (xs : List (List ℕ))
    → All IsWord xs
    → has_words xs ≡ true
    → (next_line (join b' ' xs ++ (b'\n' ∷ [])) ≡ some (join b' ' xs))
      × (split_whitespace (join b' ' xs) ≡ xs)
line_of_words [] h k = absurd (cc)
line_of_words (x ∷ xs) h k = (
  next_line-line (join b' ' (x ∷ xs)) (join-IsInLine (x ∷ xs) h) (join-nonempty x xs h.0.nonempty),
  split_whitespace-join x xs h,
)

digits-IsPlain : (s : List ℕ) → All IsDigit s → IsPlain is_whitespace s
unfolding is_whitespace
digits-IsPlain [] h = tt
digits-IsPlain (c ∷ s) h = (ground (arith, h.0.0, h.0.1), digits-IsPlain s h.1)

show-IsWord : (n : ℕ) → IsWord (show n)
show-IsWord n = record { plain = digits-IsPlain (show n) (show-All n); nonempty = show-nonempty n }

-- What a command of the client asks for, where its texts are words and its numbers fit.
pub data Means : Command → Action → Type 0 where
  means_add :
      (proto : List ℕ) (local_port : ℕ) (forward_ip : List ℕ) (forward_port : ℕ)
      → IsWord proto
      → IsWord forward_ip
      → local_port < 2 ^ 16
      → forward_port < 2 ^ 16
      → Means
          (add proto local_port forward_ip forward_port)
          (do_add proto local_port forward_ip forward_port)
  means_del :
      (proto : List ℕ) (local_port : ℕ)
      → IsWord proto
      → local_port < 2 ^ 16
      → Means (del proto local_port) (do_del proto local_port)
  means_list : Means list do_list
  means_timeout :
      (proto : List ℕ) (seconds : ℕ)
      → IsWord proto
      → seconds < 2 ^ 64
      → Means (timeout proto seconds) (do_timeout proto seconds)
  means_query :
      (src_ip dst_ip : List ℕ) (src dst : ℕ)
      → IsWord src_ip
      → IsWord dst_ip
      → parse_ipv4 src_ip ≡ some src
      → parse_ipv4 dst_ip ≡ some dst
      → Means (query_session src_ip dst_ip) (do_query src dst)

add-IsWord : IsWord (codes "ADD")
unfolding is_whitespace
add-IsWord = record { plain = (refl, (refl, (refl, tt))); nonempty = refl }

del-IsWord : IsWord (codes "DEL")
unfolding is_whitespace
del-IsWord = record { plain = (refl, (refl, (refl, tt))); nonempty = refl }

list-IsWord : IsWord (codes "LIST")
unfolding is_whitespace
list-IsWord = record { plain = (refl, (refl, (refl, (refl, tt)))); nonempty = refl }

timeout-IsWord : IsWord (codes "TIMEOUT")
unfolding is_whitespace
timeout-IsWord = record {
  plain = (refl, (refl, (refl, (refl, (refl, (refl, (refl, tt)))))));
  nonempty = refl;
}

query-IsWord : IsWord (codes "QUERY-SESSION")
unfolding is_whitespace
query-IsWord = record {
  plain = (
    refl,
    (
      refl,
      (refl, (refl, (refl, (refl, (refl, (refl, (refl, (refl, (refl, (refl, (refl, tt))))))))))),
    ),
  );
  nonempty = refl;
}

words-IsWord : (c : Command) (a : Action) → Means c a → All IsWord (words_of c)
words-IsWord c a (means_add p l i f hp hi hl hf) =
    (add-IsWord, (hp, (show-IsWord l, (hi, (show-IsWord f, tt)))))
words-IsWord c a (means_del p l hp hl) = (del-IsWord, (hp, (show-IsWord l, tt)))
words-IsWord c a means_list = (list-IsWord, tt)
words-IsWord c a (means_timeout p n hp hn) = (timeout-IsWord, (hp, (show-IsWord n, tt)))
words-IsWord c a (means_query s d x y hs hd px py) = (query-IsWord, (hs, (hd, tt)))

parse_parts-Means : (c : Command) (a : Action) → Means c a → parse_parts (words_of c) ≡ inr a
unfolding parse_command to_uppercase upper text_eq parse_add parse_del parse_timeout parse_query
    parse_u16 parse_u32 parse_u64
parse_parts-Means c a (means_add p l i f hp hi hl hf) =
    rw (from_str_radix-show (2 ^ 32) l (omega arith), from_str_radix-show (2 ^ 16) f hf) refl
parse_parts-Means c a (means_del p l hp hl) = rw (from_str_radix-show (2 ^ 32) l (omega arith)) refl
parse_parts-Means c a means_list = refl
parse_parts-Means c a (means_timeout p n hp hn) = rw (from_str_radix-show (2 ^ 64) n hn) refl
parse_parts-Means c a (means_query s d x y hs hd px py) = rw (px, py) refl

words_of-has_words : (c : Command) → has_words (words_of c) ≡ true
words_of-has_words (add p l i f) = refl
words_of-has_words (del p l) = refl
words_of-has_words list = refl
words_of-has_words (timeout p n) = refl
words_of-has_words (query_session s d) = refl

pub next_line-cmd_str :
    (c : Command) (a : Action) → Means c a → next_line (cmd_str c) ≡ some (join b' ' (words_of c))
unfolding cmd_str
next_line-cmd_str c a m = (line_of_words (words_of c) (words-IsWord c a m) (words_of-has_words c)).0

pub parse_line-words :
    (c : Command) (a : Action) → Means c a → parse_line (join b' ' (words_of c)) ≡ inr a
unfolding parse_line
parse_line-words c a m =
    ap parse_parts (line_of_words (words_of c) (words-IsWord c a m) (words_of-has_words c)).1
    ∙ parse_parts-Means c a m
