-- ===== src/Control/Repl.antt =====
-- src/rt_control_thread.cpp: `repl_eval`, which evaluates a text with the Lua participant and answers, and the hot swap
-- of a WASM module in `dispatch_extension`.
use nomos_rt.Common.{
  ℕ, Bool, true, false, ◌==◌, leb, ◌&&◌, if◌then◌else◌, Option, none, some, List, [], ◌∷◌, ◌++◌,
  length, take, codes, bytes_eq,
}
use nomos_rt.Edn.{Dictionary, Text, as_string, as_keyword, value_or}
use nomos_rt.Control.Host.{Host}
use nomos_rt.Control.State.{Control}

abbrev pub msg_repl_eval : ℕ
msg_repl_eval = 0x55

abbrev pub msg_wasm_hot_swap : ℕ
msg_wasm_hot_swap = 0x44

abbrev pub quote_char : Text
quote_char = b'"' ∷ []

-- The text before the next quotation mark, if there is one, and what follows the mark.
unfoldable pub split_quote : Text → Option (Text × Text)
split_quote [] = none
split_quote (b ∷ bs) =
    let rest = split_quote bs in
    if b == b'"'
    then some ([], bs)
    else elim rest [ none ↦ none | some (front, back) ↦ some (b ∷ front, back) ]

-- `substr(q1 + 1, q2 - q1 - 1)` for the first two marks.
unfoldable pub quoted : Text → Option Text
unfolding split_quote
quoted s = elim (split_quote s) [
  | none ↦ none
  | some (front, back) ↦ elim (split_quote back) [ none ↦ none | some (inner, rest) ↦ some inner ]
]

unfoldable pub error_text : Option Text → Text
error_text none = codes "{:result nil :error \"eval error\"}"
error_text (some message) = codes "{:result nil :error \"" ++ message ++ codes "\"}"

abbrev pub error_prefix : Text
error_prefix = codes "{:error"

unfoldable pub tty_payload : Text → Text
unfolding error_text quoted
tty_payload result =
    if leb 7 (length result) && bytes_eq (take 7 result) error_prefix
    then error_text (quoted result)
    else codes "{:result " ++ result ++ codes " :error nil}"

unfoldable pub response : Text → Text → Text
response id result = codes "{:id \"" ++ id ++ codes "\" :result " ++ result ++ codes "}"

-- `dest`
pub data Destination : Type 0 where
  fennel nous vcvrack_tty unknown : Destination

unfoldable pub destination_of : Text → Destination
destination_of dest =
    if bytes_eq dest (codes "fennel")
    then fennel
    else if bytes_eq dest (codes "nous")
    then nous
    else if bytes_eq dest (codes "vcvrack-tty")
    then vcvrack_tty
    else unknown

module _ (h : Host) where
  -- `ipc::write_message` to the connection; `connected` is `conn_fd >= 0`, and without a connection the write fails.
  unfoldable pub reply : Bool → ℕ → Text → Control h → Control h
  reply true type text c = record c { replies = c.replies ++ (type, text) ∷ [] }
  reply false type text c = c

  unfoldable pub eval_lua : Text → Option h.Lua → Text × Option h.Lua
  eval_lua src none = (codes "{:error \"LuaJIT not loaded\"}", none)
  eval_lua src (some lua) = let (text, lua') = h.eval src lua in (text, some lua')

  -- `tty_sink(tty_payload)`
  unfoldable pub show_tty : Text → Option (List Text) → Option (List Text)
  unfolding tty_payload
  show_tty result none = none
  show_tty result (some shown) = some (shown ++ tty_payload result ∷ [])

  -- `result_edn`, and the state after the evaluation.
  unfoldable pub evaluate : Destination → Text → Control h → Text × Control h
  unfolding eval_lua show_tty
  evaluate fennel src c = let (result, lua) = eval_lua src c.lua in (result, record c { lua = lua })
  evaluate nous src c = (codes "{:error \"nous forwarding not yet wired\"}", c)
  evaluate vcvrack_tty src c =
      let (result, lua) = eval_lua src c.lua in
      (result, record c { lua = lua; tty = show_tty result c.tty })
  evaluate unknown src c = (codes "{:error \"unknown :dest\"}", c)

  unfoldable pub repl_eval : Bool → Dictionary h.num.D → Control h → Control h
  unfolding destination_of response
  repl_eval connected m c =
      let id = value_or (as_string (h.find_kw m (codes "id"))) [] in
      let dest = destination_of (value_or (as_keyword (h.find_kw m (codes "dest"))) []) in
      let r = evaluate dest (value_or (as_string (h.find_kw m (codes "payload"))) []) c in
      reply connected msg_repl_eval (response id r.0) r.1

  -- `ok`, and the callback after the call.
  unfoldable pub call_swap : Text → Text → Option h.Swap → Bool × Option h.Swap
  call_swap node path none = (false, none)
  call_swap node path (some swap) = let (ok, swap') = h.swap node path swap in (ok, some swap')

  unfoldable pub swap_response : Text → Bool → Text
  swap_response node true = codes "{:node-id :" ++ node ++ codes " :status :ok}"
  swap_response node false =
      codes "{:node-id :" ++ node ++ codes " :status :error :reason \"swap not wired\"}"

  -- Nothing is done for a path that is empty or no string.
  unfoldable pub swap_module : Bool → Text → Text → Control h → Control h
  unfolding call_swap
  swap_module connected node [] c = c
  swap_module connected node (b ∷ bs) c =
      let (ok, swap) = call_swap node (b ∷ bs) c.swap in
      reply connected msg_wasm_hot_swap (swap_response node ok) (record c { swap = swap })

  unfoldable pub wasm_hot_swap : Bool → Dictionary h.num.D → Control h → Control h
  unfolding swap_module
  wasm_hot_swap connected m c =
      swap_module connected (value_or (as_keyword (h.find_kw m (codes "node-id"))) [])
        (value_or (as_string (h.find_kw m (codes "wasm-path"))) []) c
