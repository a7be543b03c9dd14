-- ===== src/Pipelog/Subscribers.antt =====
-- library/pipelog/fs.go: who follows which file. A writer is named by a number (its identity as a
-- map key); `none` is a nil writer. What a new follower is sent of the file's end is Tail's.
pub mod Laws
use ssoc_broker.Base.{ℕ, ℕ_discrete, List, [], ◌∷◌, Option, none, some, Text, text_dec, map}
use ssoc_broker.GoMap.{lookup, insert, remove}

abbrev pub Writers : Type 0
Writers = List (ℕ × Unit {0})

-- `submap`.
abbrev pub SubMap : Type 0
SubMap = List (Text × Writers)

-- `subs := pf.submap[name]`, where a nil map is empty.
unfoldable pub writers_of : Text → SubMap → Writers
writers_of name m = elim (lookup text_dec name m) [ none ↦ [] | some subs ↦ subs ]

-- `Subscriber`, before it reads the file's end.
unfoldable pub subscribe : Option ℕ → Text → SubMap → SubMap
unfolding writers_of
subscribe none name m = m
subscribe (some w) name m = insert text_dec name (insert ℕ_discrete w tt (writers_of name m)) m

-- `Unsubscriber`: the map of a name that has none is nil, and `delete` of it does nothing.
unfoldable pub unsubscribe : Option ℕ → Text → SubMap → SubMap
unsubscribe none name m = m
unsubscribe (some w) name m = elim (lookup text_dec name m) [
  | none ↦ m
  | some subs ↦ insert text_dec name (remove ℕ_discrete w subs) m
]

-- `notifyAll`: the writers that the content is written to, each with a copy of its own.
unfoldable pub notify_all : Text → Text → SubMap → List (ℕ × Text)
unfolding writers_of
notify_all name content m = map (λ e. (e.0, content)) (writers_of name m)
