-- ===== src/Server/Messages.antt =====
-- cloud_backup_server.hpp, PipeDataReader and PipeDataHandler: messages through the pipe.
use cloud_backup_system.Sockets.{Clients, Os, at_fd}
use cloud_backup_system.Common.{
  ℕ, ◌^◌, ◌<◌, ◌≤◌, ◌≡◌, refl, true, false, Option, none, some, ◌>>=◌, List, [], ◌∷◌, ◌++◌, Bytes,
  pos, ◌==◌, ltb, if◌then◌else◌, length, to_string, stoi, stoi-to_string, lacks, lacks-to_string,
  arith, append-nil, append_assoc, length-append, Option-cases, Bool-cases, is_some, ◌&&◌,
  length-to_string, inl, inr,
}
use cloud_backup_system.Server.{
  Table, Server, messages, prepend_to, at_underscore, identifier_of, act, use_time, act_on,
  handle_message, handle_messages, pipe_data_handler,
}

at_underscore-lacks : (t : Bytes) → lacks b'_' t ≡ true → at_underscore t ≡ none
at_underscore-lacks [] h = refl
at_underscore-lacks (c ∷ t) h = ground (arith, at_underscore-lacks t)

at_underscore-append :
    (s t : Bytes) → lacks b'_' t ≡ true → at_underscore (s ++ b'_' ∷ t) ≡ some (s, t)
at_underscore-append [] t h = rw (at_underscore-lacks t h) refl
at_underscore-append (c ∷ s) t h = rw (at_underscore-append s t h) refl

stoi_print : (a : ℕ) → a < 2 ^ 31 → stoi (to_string a) ≡ some (pos a)
stoi_print a h = rw (append-nil (to_string a)) at (stoi-to_string a [] refl h)

-- What is left behind the last comma, and the rest of the text.
abbrev combine : List Bytes × Bytes → Bytes → List Bytes × Bytes
combine (ms, rest) ys = (ms ++ (messages (rest ++ ys)).0, (messages (rest ++ ys)).1)

combine-prepend_to :
    (c : ℕ) (r : List Bytes × Bytes) (ys : Bytes)
    → (c == b',') ≡ false
    → prepend_to c (combine r ys) ≡ combine (prepend_to c r) ys
combine-prepend_to c ([], rest) ys h = rw h refl
combine-prepend_to c (m ∷ ms, rest) ys h = refl

messages-append : (xs ys : Bytes) → messages (xs ++ ys) ≡ combine (messages xs) ys
messages-append [] ys = refl
messages-append (c ∷ xs) ys = elim (Bool-cases (c == b',')) [
  | inl e ↦ rw (e, messages-append xs ys) refl
  | inr e ↦ rw (e, messages-append xs ys) (combine-prepend_to c (messages xs) ys e)
]

is_long_name : (a b : ℕ) → 3 ≤ length (identifier_of a b)
is_long_name a b = omega (
  arith,
  length-append (to_string a) (b'_' ∷ to_string b),
  length-to_string a,
  length-to_string b,
)

module _ (os : Os) (cl : Clients) where
  -- A message that a connection writes, an operation and the identifier of a descriptor and a time of
  -- use below 2 ^ 31, is read as these two: it acts on the descriptor if the table has a connection
  -- there that was added at this time, and leaves the table as it is otherwise.
  pub handle_message-identifier_of :
      (op fd t : ℕ) (s : Table os cl)
      → fd < 2 ^ 31
      → t < 2 ^ 31
      → handle_message os cl (op ∷ identifier_of fd t) s
        ≡ some (
            if is_some (at_fd fd s.connections) && (t == use_time os cl fd s)
            then act os cl op fd s
            else s)
  unfolding handle_message act_on
  handle_message-identifier_of op fd t s small_fd small_t =
      let long : ltb (length (op ∷ identifier_of fd t)) 4 ≡ false =
        ground (arith, is_long_name fd t) in
      let parts = at_underscore-append (to_string fd) (to_string t) (lacks-to_string b'_' t refl) in
      rw (long, parts, stoi_print fd small_fd, stoi_print t small_t) refl

  handle_messages-append :
      (ms ns : List Bytes) (s : Table os cl)
      → handle_messages os cl (ms ++ ns) s
        ≡ (handle_messages os cl ms s >>= handle_messages os cl ns)
  unfolding handle_messages
  handle_messages-append [] ns s = refl
  handle_messages-append (m ∷ ms) ns s = elim (Option-cases (handle_message os cl m s)) [
    | inl e ↦ rw e refl
    | inr (t, e) ↦ rw e (handle_messages-append ms ns t)
  ]

  -- The text that was read from the pipe.
  abbrev pub fed : Bytes → Server os cl → Option (Server os cl)
  fed at s = pipe_data_handler os cl (record s { read_pipe_buffer = s.read_pipe_buffer ++ at })

  -- Text from the pipe that comes in two pieces has the same effect as in one, wherever it is cut.
  pub pipe_pieces : (xs ys : Bytes) (s : Server os cl) → fed (xs ++ ys) s ≡ (fed xs s >>= fed ys)
  unfolding pipe_data_handler
  pipe_pieces xs ys s =
      let b = s.read_pipe_buffer in
      let (ms, rest) = messages (b ++ xs) in
      let split : messages (b ++ (xs ++ ys)) ≡ combine (messages (b ++ xs)) ys =
        rw (← append_assoc b xs ys) (messages-append (b ++ xs) ys) in
      let joined = handle_messages-append ms (messages (rest ++ ys)).0 s.table in
      elim (Option-cases (handle_messages os cl ms s.table)) [
        | inl e ↦ rw (split, joined, e) refl
        | inr (t, e) ↦ rw (split, joined, e) refl
      ]
