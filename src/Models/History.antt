-- ===== src/Models/History.antt =====
-- cbrain/models/contracts.py: `validate_history`, and the histories that it lets through.
use cbrain.Prelude.{
  ℕ, ltb, String, Option, none, some, Bool, true, false, ◌&&◌, not, is_none, List, [], ◌∷◌, Result,
  ok, ◌>>◌, refuse, refuse-eq-ok, str_eq, eq_iff, eq_refl, ◌≡◌, refl, sym, ◌↔◌, ◌⊎◌, inl, inr,
  arith, Bool-cases, Option-cases,
}
use mathlib.Core.Path.{subst}
use cbrain.Approvals.{contains}
use cbrain.Models.{ModelContractError, ToolCall, Message, is_tool, all_unique}

abbrev pub is_text : Option String → String → Bool
is_text none s = false
is_text (some t) s = str_eq t s

abbrev pub is_empty : List Message → Bool
is_empty [] = true
is_empty _ = false

-- `(message.tool_call_id, message.tool_name) == (pending.call_id, pending.name)`
abbrev pub answers : Option ToolCall → Message → Bool
answers none m = false
answers (some c) m = is_text m.tool_call_id c.call_id && is_text m.tool_name c.name

-- The loop of `validate_history`, with `pending` and `seen`, and the test after it.
unfoldable pub history :
    Bool → Option ToolCall → List String → List Message → Result ModelContractError (Unit {0})
history allow pending seen [] =
    refuse (not (is_none pending) && not allow) ModelContractError.missing_result
history allow pending seen (m ∷ ms) = elim (is_tool m.role) [
  | true ↦
      refuse (not (answers pending m)) ModelContractError.unmatched_result
      >> history allow none seen ms
  | false ↦ refuse (not (is_none pending)) ModelContractError.missing_result >> elim m.tool_call [
    | none ↦ history allow none seen ms
    | some c ↦
        refuse (contains seen c.call_id) ModelContractError.duplicate_call
        >> history allow (some c) (c.call_id ∷ seen) ms
  ]
]

unfoldable pub validate_history : List Message → Bool → Result ModelContractError (Unit {0})
unfolding history
validate_history ms allow = history allow none [] ms

-- `CompletionRequest(...)` by its messages, the names of its tools and `max_output_tokens`; the
-- temperature is its default.
unfoldable pub completion_request :
    List Message → List String → ℕ → Result ModelContractError (Unit {0})
unfolding validate_history
completion_request ms tools max_output_tokens = do
  refuse (is_empty ms) ModelContractError.no_messages
  validate_history ms false
  refuse (not (all_unique tools)) ModelContractError.repeated_tools
  refuse (ltb max_output_tokens 1) ModelContractError.no_tokens

-- A history in which each call has an id of its own and is followed at once by its result; where
-- that is allowed, the last call may still wait for its result.
pub data Paired (allow : Bool) : List String → List Message → Type 0 where
  finished : {seen : List String} → Paired allow seen []
  says :
      {seen : List String} {m : Message} {ms : List Message}
      → is_tool m.role ≡ false
      → m.tool_call ≡ none
      → Paired allow seen ms
      → Paired allow seen (m ∷ ms)
  asks :
      {seen : List String} {m r : Message} {ms : List Message} (c : ToolCall)
      → is_tool m.role ≡ false
      → m.tool_call ≡ some c
      → contains seen c.call_id ≡ false
      → is_tool r.role ≡ true
      → r.tool_call_id ≡ some c.call_id
      → r.tool_name ≡ some c.name
      → Paired allow (c.call_id ∷ seen) ms
      → Paired allow seen (m ∷ r ∷ ms)
  waits :
      {seen : List String} {m : Message} (c : ToolCall)
      → allow ≡ true
      → is_tool m.role ≡ false
      → m.tool_call ≡ some c
      → contains seen c.call_id ≡ false
      → Paired allow seen (m ∷ [])

text_eq : (o : Option String) (s : String) → is_text o s ≡ true → o ≡ some s
text_eq none s h = absurd (cc)
text_eq (some t) s h = ground (arith, eq_iff t s)

-- What a history that was let through looks like after a call that waits.
abbrev After : Bool → Option ToolCall → List String → List Message → Type 0
After allow none seen ms = Paired allow seen ms
After allow (some c) seen ms =
    ((allow ≡ true) × (ms ≡ []))
    ⊎ ((r : Message) × (rest : List Message) × (ms ≡ r ∷ rest)
        × (is_tool r.role ≡ true)
        × (r.tool_call_id ≡ some c.call_id)
        × (r.tool_name ≡ some c.name)
        × Paired allow seen rest)

-- A call and what comes after it.
After-asks :
    (allow : Bool) (seen : List String) (m : Message) (ms : List Message) (c : ToolCall)
    → is_tool m.role ≡ false
    → m.tool_call ≡ some c
    → contains seen c.call_id ≡ false
    → After allow (some c) (c.call_id ∷ seen) ms
    → Paired allow seen (m ∷ ms)
After-asks allow seen m ms c n e f (inl (a, end)) =
    subst (λ l. Paired allow seen (m ∷ l)) (sym end) (Paired.waits c a n e f)
After-asks allow seen m ms c n e f (inr (r, rest, more, t, i, j, paired)) =
    subst (λ l. Paired allow seen (m ∷ l)) (sym more) (Paired.asks c n e f t i j paired)

module _ (allow : Bool) where
  history-After :
      (p : Option ToolCall) (seen : List String) (ms : List Message)
      → history allow p seen ms ≡ ok tt
      → After allow p seen ms
  unfolding history
  history-After none seen [] h = Paired.finished
  history-After (some c) seen [] h = inl (ground arith, refl)
  history-After none seen (m ∷ ms) h = elim (Bool-cases (is_tool m.role)) [
    | inl t ↦ absurd (
        let h' : (refuse true ModelContractError.unmatched_result >> history allow none seen ms)
            ≡ ok tt =
          rw (t, history) at h in
        cc)
    | inr n ↦ elim (Option-cases m.tool_call) [
      | inl e ↦ Paired.says n e (history-After none seen ms (rw (n, e, history) at h))
      | inr (c, e) ↦
          let (f, rest) =
            refuse-eq-ok (contains seen c.call_id) ModelContractError.duplicate_call
              (history allow (some c) (c.call_id ∷ seen) ms) (rw (n, e, history) at h) in
          After-asks allow seen m ms c n e f (history-After (some c) (c.call_id ∷ seen) ms rest)
    ]
  ]
  history-After (some c) seen (m ∷ ms) h = elim (Bool-cases (is_tool m.role)) [
    | inl t ↦
        let (a, rest) =
          refuse-eq-ok (not (answers (some c) m)) ModelContractError.unmatched_result
            (history allow none seen ms) (rw (t, history) at h) in
        inr (
          m,
          ms,
          refl,
          t,
          text_eq m.tool_call_id c.call_id (ground arith),
          text_eq m.tool_name c.name (ground arith),
          history-After none seen ms rest,
        )
    | inr n ↦ absurd (let h' = rw (n, history) at h in cc)
  ]

  Paired-history :
      (seen : List String) (ms : List Message)
      → Paired allow seen ms
      → history allow none seen ms ≡ ok tt
  unfolding history
  Paired-history seen _ Paired.finished = refl
  Paired-history seen _ (Paired.says {m = m} {ms = ms} n e paired) =
      rw (n, e, history) (Paired-history seen ms paired)
  Paired-history seen _ (Paired.asks {m = m} {r = r} {ms = ms} c n e f t i j paired) =
      rw (n, e, f, t, i, j, eq_refl c.call_id, eq_refl c.name, history)
        (Paired-history (c.call_id ∷ seen) ms paired)
  Paired-history seen _ (Paired.waits {m = m} c a n e f) = rw (n, e, f, a, history) refl

-- `validate_history` lets a history through exactly if each call in it has an id of its own and is
-- followed at once by the result with its id and its name, no result stands elsewhere, and, unless
-- that is allowed, no call waits at the end.
pub validate_history-ok_iff :
    (ms : List Message) (allow : Bool) → (validate_history ms allow ≡ ok tt) ↔ Paired allow [] ms
unfolding validate_history
validate_history-ok_iff ms allow = (history-After allow none [] ms, Paired-history allow [] ms)
