-- ===== src/Ssdp/Verdict.antt =====
-- What `CheckHdr` of src/ssdp/ssdpparser.c decides, and what `AnalyzeCommand` makes of it.
use upnpsdk.Prelude.{
  ℕ, suc, ◌+◌, ◌<◌, ◌≡◌, ◌≢◌, refl, ap, ◌∙◌, ◌⊎◌, ◌++◌, ◌&&◌, if◌then◌else◌, true, false, Option,
  none, some, List, [], ◌∷◌, arith, length, bytes, All,
}
use upnpsdk.Prelude.Int.{pos, negsuc}
use upnpsdk.Prelude.Search.{find_str, has, find_str-absent, find_str-append}
use upnpsdk.Ssdp.Event.{
  Cmd, Event, Parsed, return_ok, syntax_error, e_http_syntex, str_tok, initial_event, ok, notify,
}
use upnpsdk.Ssdp.StartLine.{check_hdr, start_line, check_star, check_status}
use upnpsdk.Ssdp.Analyze.{analyze_lines, header_lines, split_lines, analyze_command}

-- A line put together from words.
unfoldable pub joined : List ℕ → List (List ℕ) → List ℕ
joined w [] = w
joined w (v ∷ vs) = w ++ (32 ∷ joined v vs)

joined_rest : List (List ℕ) → Option (List ℕ)
joined_rest [] = none
joined_rest (v ∷ vs) = some (joined v vs)

abbrev pub IsWord : List ℕ → Type 0
IsWord w = All (λ c. c ≢ 32) w

-- A start line: what the first three words hold, and its command.
pub record LineForm : Type 0 where
  pub first : List ℕ
  pub second : List ℕ
  pub third : List ℕ
  pub cmd : Cmd

abbrev pub star_form : List ℕ → Cmd → LineForm
star_form first cmd = record {
  first = first;
  second = bytes "*";
  third = bytes "HTTP/1.1";
  cmd = cmd;
}

abbrev pub status_form : LineForm
status_form = record {
  first = bytes "HTTP/1.1";
  second = bytes "200";
  third = bytes "OK";
  cmd = ok;
}

abbrev pub start_lines : List LineForm
start_lines =
    star_form (bytes "M-SEARCH") Cmd.search ∷ star_form (bytes "NOTIFY") notify ∷ status_form ∷ []

-- What becomes of the words behind the first, once that has chosen the form: the search in a word that
-- is not there faults.
pub words_verdict : LineForm → List (List ℕ) → Event → Parsed
words_verdict form [] e = none
words_verdict form (b ∷ []) e = if has b form.second then none else syntax_error e
words_verdict form (b ∷ c ∷ ws) e =
    if has b form.second && has c form.third
    then return_ok (record e { cmd = form.cmd })
    else syntax_error e

-- The first form whose first text the word holds decides.
pub line_verdict : List LineForm → List ℕ → List (List ℕ) → Event → Parsed
unfolding words_verdict
line_verdict [] w ws e = syntax_error e
line_verdict (form ∷ forms) w ws e =
    if has w form.first then words_verdict form ws e else line_verdict forms w ws e

str_tok-joined :
    (w : List ℕ) (ws : List (List ℕ))
    → IsWord w
    → str_tok (some (joined w ws)) (bytes " ") ≡ (some w, joined_rest ws)
unfolding str_tok joined joined_rest
str_tok-joined w [] h = rw (find_str-absent w 32 [] h, str_tok) refl
str_tok-joined w (v ∷ vs) h = rw (find_str-append w 32 [] (joined v vs) h refl, str_tok) refl

check_star-words :
    (first : List ℕ) (cmd : Cmd) (ws : List (List ℕ)) (e : Event)
    → All IsWord ws
    → check_star cmd (joined_rest ws) e ≡ words_verdict (star_form first cmd) ws e
unfolding check_star words_verdict joined_rest str_tok
check_star-words first cmd [] e h = refl
check_star-words first cmd (b ∷ []) e h = ground (arith, str_tok-joined b [] h.0)
check_star-words first cmd (b ∷ c ∷ ws) e h =
    ground (arith, str_tok-joined b (c ∷ ws) h.0, str_tok-joined c ws h.1.0)

check_status-words :
    (ws : List (List ℕ)) (e : Event)
    → All IsWord ws
    → check_status (joined_rest ws) e ≡ words_verdict status_form ws e
unfolding check_status words_verdict joined_rest str_tok
check_status-words [] e h = refl
check_status-words (b ∷ []) e h = ground (arith, str_tok-joined b [] h.0)
check_status-words (b ∷ c ∷ ws) e h =
    ground (arith, str_tok-joined b (c ∷ ws) h.0, str_tok-joined c ws h.1.0)

-- `CheckHdr` on a line of one or more words, joined by spaces, of fewer than 300 bytes: the first of
-- "M-SEARCH", "NOTIFY", "HTTP/1.1" that the first word holds decides. The line is accepted, with 1 and
-- the command set, when the second word then holds "*" and the third "HTTP/1.1", or "200" and "OK" for
-- the last; otherwise it is rejected with -1 and the error set, and where a word that is looked into is
-- missing the call faults. Nothing else of the event changes.
pub check_hdr-joined :
    (w : List ℕ) (ws : List (List ℕ)) (e : Event)
    → IsWord w
    → All IsWord ws
    → length (joined w ws) < 300
    → check_hdr (joined w ws) e ≡ line_verdict start_lines w ws e
unfolding check_hdr start_line line_verdict
check_hdr-joined w ws e h hs short = ground (
  arith,
  str_tok-joined w ws h,
  check_star-words (bytes "M-SEARCH") Cmd.search ws e hs,
  check_star-words (bytes "NOTIFY") notify ws e hs,
  check_status-words ws e hs,
)

-- A start line that `CheckHdr` rejects does not stop `AnalyzeCommand`: the headers are parsed all the
-- same, and the return value is theirs.
analyze_lines_rejected :
    (start : List ℕ) (lines : List (List ℕ)) (e e1 : Event)
    → check_hdr start e ≡ some (negsuc 0, e1)
    → analyze_lines (start ∷ lines) e ≡ header_lines lines (pos 1) e1
unfolding analyze_lines
analyze_lines_rejected start lines e e1 h = rw h

-- A text without carriage return that fits is one line.
split_one :
    (s : List ℕ) (fuel room : ℕ)
    → All (λ c. c ≢ 13) s
    → length s < 300
    → split_lines (suc (suc fuel)) (suc room) (some s) ≡ some (some (s ∷ []))
unfolding split_lines str_tok
split_one s fuel room plain short =
    let absent : find_str s (bytes "\r\n") ≡ none = find_str-absent s 13 (10 ∷ []) plain in
    ground arith

-- `AnalyzeCommand` on the lines that its first loop finds.
pub analyze_split :
    (c : ℕ) (s : List ℕ) (e : Event) (lines : List (List ℕ))
    → split_lines (length (c ∷ s) + 2) 12 (some (c ∷ s)) ≡ some (some lines)
    → analyze_command (some (c ∷ s)) e ≡ analyze_lines lines initial_event
unfolding analyze_command
analyze_split c s e lines h = rw (h, analyze_command)

analyze_one_line :
    (c : ℕ) (s : List ℕ) (e : Event)
    → All (λ d. d ≢ 13) (c ∷ s)
    → length (c ∷ s) < 300
    → analyze_command (some (c ∷ s)) e ≡ analyze_lines ((c ∷ s) ∷ []) initial_event
analyze_one_line c s e plain short =
    let fuel : length (c ∷ s) + 2 ≡ suc (suc (length (c ∷ s))) = omega arith in
    analyze_split c s e ((c ∷ s) ∷ []) (
      ap (λ n. split_lines n 12 (some (c ∷ s))) fuel
      ∙ split_one (c ∷ s) (length (c ∷ s)) 11 plain short)

check_hdr_one_word :
    (s : List ℕ) (e : Event)
    → All (λ c. c ≢ 32) s
    → length s < 300
    → check_hdr s e ≡ start_line s none e
unfolding check_hdr str_tok
check_hdr_one_word s e plain short =
    let absent : find_str s (bytes " ") ≡ none = find_str-absent s 32 [] plain in ground arith

-- A message of one word (no space, no carriage return, one byte or more, fewer than 300) that has
-- neither "M-SEARCH" nor "NOTIFY" nor "HTTP/1.1" in it is no SSDP message; `AnalyzeCommand` sets the
-- error and returns 1, the value for success.
pub analyze_accepts_garbage :
    (c : ℕ) (s : List ℕ) (e : Event)
    → All (λ d. d ≢ 32) (c ∷ s)
    → All (λ d. d ≢ 13) (c ∷ s)
    → length (c ∷ s) < 300
    → has (c ∷ s) (bytes "M-SEARCH") ≡ false
    → has (c ∷ s) (bytes "NOTIFY") ≡ false
    → has (c ∷ s) (bytes "HTTP/1.1") ≡ false
    → analyze_command (some (c ∷ s)) e
      ≡ some (pos 1, record initial_event { err_code = e_http_syntex })
unfolding analyze_command start_line header_lines
analyze_accepts_garbage c s e one plain short no_search no_notify no_version =
    let start : check_hdr (c ∷ s) initial_event ≡ syntax_error initial_event =
      check_hdr_one_word (c ∷ s) initial_event one short ∙ rw (no_search, no_notify, no_version) in
    analyze_one_line c s e plain short ∙ analyze_lines_rejected (c ∷ s) [] initial_event _ start

-- A message of one such word that does hold "M-SEARCH" makes `CheckHdr` search for "*" through NULL.
pub analyze_faults_on_one_word :
    (c : ℕ) (s : List ℕ) (e : Event)
    → All (λ d. d ≢ 32) (c ∷ s)
    → All (λ d. d ≢ 13) (c ∷ s)
    → length (c ∷ s) < 300
    → (has (c ∷ s) (bytes "M-SEARCH") ≡ true)
      ⊎ (has (c ∷ s) (bytes "NOTIFY") ≡ true)
      ⊎ (has (c ∷ s) (bytes "HTTP/1.1") ≡ true)
    → analyze_command (some (c ∷ s)) e ≡ none
unfolding analyze_command analyze_lines start_line check_star check_status str_tok
analyze_faults_on_one_word c s e one plain short word =
    let start : check_hdr (c ∷ s) initial_event ≡ none =
      check_hdr_one_word (c ∷ s) initial_event one short ∙ ground arith in
    analyze_one_line c s e plain short ∙ rw start
