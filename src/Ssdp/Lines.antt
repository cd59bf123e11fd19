-- ===== src/Ssdp/Lines.antt =====
-- The lines that `AnalyzeCommand` of src/ssdp/ssdpparser.c takes a message apart into.
use upnpsdk.Prelude.{
  ℕ, zero, suc, ◌+◌, ◌-◌, ◌≤◌, ◌<◌, ◌≡◌, ◌≢◌, refl, none, some, List, [], ◌∷◌, ◌++◌, arith, length,
  bytes, All, length-append,
}
use upnpsdk.Prelude.Search.{find_str-absent, find_str-append}
use upnpsdk.Ssdp.Event.{Event, str_tok, initial_event}
use upnpsdk.Ssdp.Analyze.{analyze_lines, split_lines, analyze_command}
use upnpsdk.Ssdp.Verdict.{analyze_split}

-- The message of some lines, with "\r\n" between them.
pub message : List ℕ → List (List ℕ) → List ℕ
message l [] = l
message l (m ∷ ls) = l ++ (13 ∷ 10 ∷ message m ls)

-- A line without carriage return.
abbrev pub IsPlain : List ℕ → Type 0
IsPlain l = All (λ c. c ≢ 13) l

str_tok_line :
    (l rest : List ℕ)
    → IsPlain l
    → str_tok (some (l ++ (13 ∷ 10 ∷ rest))) (bytes "\r\n") ≡ (some l, some rest)
unfolding str_tok
str_tok_line l rest h = rw (find_str-append l 13 (10 ∷ []) (10 ∷ rest) h refl, str_tok)

str_tok_last : (l : List ℕ) → IsPlain l → str_tok (some l) (bytes "\r\n") ≡ (some l, none)
unfolding str_tok
str_tok_last l h = rw (find_str-absent l 13 (10 ∷ []) h, str_tok)

split_lines-message :
    (l : List ℕ) (ls : List (List ℕ)) (fuel room : ℕ)
    → IsPlain l
    → All IsPlain ls
    → length l < 300
    → All (λ m. length m < 300) ls
    → length ls < room
    → length ls + 1 < fuel
    → split_lines fuel room (some (message l ls)) ≡ some (some (l ∷ ls))
unfolding split_lines message
split_lines-message l ls zero room h hs s ss r f = absurd (omega arith)
split_lines-message l ls (suc zero) room h hs s ss r f = absurd (omega arith)
split_lines-message l [] (suc (suc fuel)) room h hs s ss r f = ground (arith, str_tok_last l h)
split_lines-message l (m ∷ ls) (suc (suc fuel)) room h hs s ss r f = ground (
  arith,
  str_tok_line l (message m ls) h,
  split_lines-message m ls (suc fuel) (room - 1) hs.0 hs.1 ss.0 ss.1 (omega arith) (omega arith),
)

length-message : (l : List ℕ) (ls : List (List ℕ)) → length ls ≤ length (message l ls)
unfolding message
length-message l [] = omega arith
length-message l (m ∷ ls) =
    omega (arith, length-append l (13 ∷ 10 ∷ message m ls), length-message m ls)

-- A message of one to twelve lines, joined by "\r\n", the first not empty, none of which holds a carriage
-- return or has 300 bytes or more, is taken apart into exactly those lines: `AnalyzeCommand` then parses the first
-- as start line and the others as headers, on an event that is initialised first.
pub analyze-message :
    (c : ℕ) (l : List ℕ) (ls : List (List ℕ)) (e : Event)
    → IsPlain (c ∷ l)
    → All IsPlain ls
    → length (c ∷ l) < 300
    → All (λ m. length m < 300) ls
    → length ls < 12
    → analyze_command (some (message (c ∷ l) ls)) e ≡ analyze_lines ((c ∷ l) ∷ ls) initial_event
unfolding message
analyze-message c l [] e h hs s ss r =
    analyze_split c l e ((c ∷ l) ∷ [])
      (split_lines-message (c ∷ l) [] _ 12 h hs s ss r (omega arith))
analyze-message c l (m ∷ ls) e h hs s ss r =
    analyze_split c (l ++ (13 ∷ 10 ∷ message m ls)) e ((c ∷ l) ∷ m ∷ ls) (
      split_lines-message (c ∷ l) (m ∷ ls) _ 12 h hs s ss r
        (omega (arith, length-append l (13 ∷ 10 ∷ message m ls), length-message m ls)))

split_lines-too_many :
    (l : List ℕ) (ls : List (List ℕ)) (fuel room : ℕ)
    → IsPlain l
    → All IsPlain ls
    → room ≤ length ls
    → length ls + 1 < fuel
    → split_lines fuel room (some (message l ls)) ≡ some none
unfolding split_lines message
split_lines-too_many l ls zero room h hs r f = absurd (omega arith)
split_lines-too_many l ls (suc zero) room h hs r f = absurd (omega arith)
split_lines-too_many l [] (suc (suc fuel)) room h hs r f = ground (arith, str_tok_last l h)
split_lines-too_many l (m ∷ ls) (suc (suc fuel)) room h hs r f = ground (
  arith,
  str_tok_line l (message m ls) h,
  split_lines-too_many m ls (suc fuel) (room - 1) hs.0 hs.1 (omega arith) (omega arith),
)

-- A message of more than twelve lines, the first not empty, none with a carriage return, is copied past the end of
-- `Command_List`: there is no test of the number of lines.
pub analyze-too_many_lines :
    (c : ℕ) (l : List ℕ) (ls : List (List ℕ)) (e : Event)
    → IsPlain (c ∷ l)
    → All IsPlain ls
    → 12 ≤ length ls
    → analyze_command (some (message (c ∷ l) ls)) e ≡ none
unfolding analyze_command message
analyze-too_many_lines c l [] e h hs r = absurd (omega arith)
analyze-too_many_lines c l (m ∷ ls) e h hs r =
    let over : split_lines (length ((c ∷ l) ++ (13 ∷ 10 ∷ message m ls)) + 2) 12
          (some ((c ∷ l) ++ (13 ∷ 10 ∷ message m ls)))
        ≡ some none =
      split_lines-too_many (c ∷ l) (m ∷ ls) _ 12 h hs r
        (omega (arith, length-append l (13 ∷ 10 ∷ message m ls), length-message m ls)) in
    rw (over, analyze_command)
