-- ===== src/Ssdp/Analyze.antt =====
-- `AnalyzeCommand` of src/ssdp/ssdpparser.c.
use upnpsdk.Prelude.{
  ℕ, zero, suc, ◌+◌, ◌-◌, not, ◌||◌, Option, none, some, List, [], ◌∷◌, if◌then◌else◌, leb, ◌==◌,
  ◌>>=◌, drop, length, bytes,
}
use upnpsdk.Prelude.Int.{ℤ, pos, ltb_ℤ, eqb_ℤ}
use upnpsdk.Prelude.Search.{find_str, eq_nocase}
use upnpsdk.Ssdp.Event.{
  Cmd, Event, command_len, num_token, no_error_found, Parsed, return_bad, str_tok, initial_event,
}
use upnpsdk.Ssdp.StartLine.{check_hdr}
use upnpsdk.Ssdp.Headers.{fun_list}

-- The first loop of `AnalyzeCommand`: the lines that go to `Command_List`, of which `room` are free.
-- `none` inside is a line that does not fit; fuel that ran out is `none` outside.
unfoldable pub split_lines : ℕ → ℕ → Option (List ℕ) → Option (Option (List (List ℕ)))
unfolding str_tok
split_lines zero room src = none
split_lines (suc fuel) room src =
    let (token, src') = str_tok src (bytes "\r\n") in
    elim token [
      | none ↦ some (some [])
      | some line ↦ elim (split_lines fuel (room - 1) src') [
        | none ↦ none
        | some none ↦ some none
        | some (some lines) ↦
            if room == 0 || leb command_len (length line)
            then some none
            else some (some (line ∷ lines))
      ]
    ]

-- The inner loop: the function of the first name that fits the token. The value behind the colon is
-- read only there; without a colon that read is through an invalid pointer.
unfoldable pub dispatch :
    List (List ℕ × (List ℕ → Event → Parsed)) → List ℕ → Option (List ℕ) → ℤ → Event → Parsed
unfolding eq_nocase
dispatch [] token value r e = some (r, e)
dispatch ((key, f) ∷ rest) token value r e =
    if eq_nocase key token then (value >>= λ v. f v e) else dispatch rest token value r e

-- One round of the outer loop, with `RetVal` as it stands before it.
unfoldable pub header_line : List ℕ → ℤ → Event → Parsed
unfolding find_str dispatch fun_list
header_line line r e = elim (find_str line (bytes ":")) [
  | none ↦ dispatch fun_list line none r e
  | some (token, from) ↦ dispatch fun_list token (some (drop 1 from)) r e
]

-- The outer loop: a negative value returns at once, as -1.
unfoldable pub header_lines : List (List ℕ) → ℤ → Event → Parsed
header_lines [] r e = some (r, e)
header_lines (line ∷ lines) r e = header_line line r e >>= λ (r1, e1).
    if ltb_ℤ r1 (pos 0) then return_bad e1 else header_lines lines r1 e1

-- From the test of the start line on, `Command_List[0]` being the first line.
unfoldable pub analyze_lines : List (List ℕ) → Event → Parsed
analyze_lines [] e = none
analyze_lines (start ∷ lines) e = check_hdr start e >>= λ (valid, e1).
    if eqb_ℤ valid (pos 0) then return_bad e1 else header_lines lines (pos 1) e1

-- The command is NULL or a string; the event is not NULL.
unfoldable pub analyze_command : Option (List ℕ) → Event → Parsed
analyze_command none e = return_bad e
analyze_command (some []) e = return_bad e
analyze_command (some (c ∷ s)) e =
    elim (split_lines (length (c ∷ s) + 2) num_token (some (c ∷ s))) [
      | some (some lines) ↦ analyze_lines lines initial_event
      | _ ↦ none
    ]

-- `TransferResEvent`: the event that is handed to the callback, if any. A search is dropped unless it
-- has a delay and a MAN header.
unfoldable pub transfer_res_event : Option (List ℕ) → Event → Option (Option Event)
transfer_res_event sent e =
    analyze_command sent (record e { err_code = no_error_found }) >>= λ (r, e1). elim e1.cmd [
      | Cmd.search ↦
          if not (ltb_ℤ (pos 0) r) || ltb_ℤ e1.mx (pos 0) || length e1.man == 0
          then some none
          else some (some e1)
      | _ ↦ if not (ltb_ℤ (pos 0) r) then some none else some (some e1)
    ]
