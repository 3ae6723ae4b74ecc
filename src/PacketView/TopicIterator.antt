-- ===== src/PacketView/TopicIterator.antt =====
-- packetview/topic_iterator.rs: the parts of a topic with the separator between them.
pub mod Items
use umqtt.Base.{
  ℕ, zero, suc, Bool, true, false, not, if◌then◌else◌, List, [], ◌∷◌, Option, none, some,
}
use mathlib.Core.Option

-- The `Peekable` iterator is the parts that are still to come.
pub record TopicIterator : Type 0 where
  pub iter : List (List ℕ)
  pub first : Bool
  pub prev_was_separator : Bool

-- `TopicIterator::new`
abbrev pub new : List (List ℕ) → TopicIterator
new iter = record { iter = iter; first = true; prev_was_separator = false }

-- `From<&str>`: a string is a topic of one part.
abbrev pub from_str : List ℕ → TopicIterator
from_str s = new (s ∷ [])

abbrev pub separator : List ℕ
separator = b'/' ∷ []

-- `self.iter.next()`
pop : TopicIterator → Option (List ℕ) × TopicIterator
pop t = elim t.iter [ [] ↦ (none, t) | part ∷ parts ↦ (some part, record t { iter = parts }) ]

-- `self.iter.peek()` and the match on it.
peek_separator : TopicIterator → Option (List ℕ) × TopicIterator
peek_separator t = elim t.iter [
  | [] ↦ (none, t)
  | part ∷ parts ↦ (some separator, record t { prev_was_separator = true })
]

unfoldable pub next : TopicIterator → Option (List ℕ) × TopicIterator
unfolding pop peek_separator
next t =
    if t.first
    then pop (record t { first = false })
    else if not t.prev_was_separator
    then peek_separator t
    else pop (record t { prev_was_separator = false })

-- One round of a loop over the iterator, which goes on with `again`.
unfoldable pub collect :
    (TopicIterator → Option (List (List ℕ)))
    → Option (List ℕ) × TopicIterator
    → Option (List (List ℕ))
collect again (none, t) = some []
collect again (some item, t) = Option.map (λ items. item ∷ items) (again t)

-- The items that such a loop sees, with fuel; nothing where the loop has not ended with it.
unfoldable pub items : ℕ → TopicIterator → Option (List (List ℕ))
items zero t = none
items (suc fuel) t = collect (items fuel) (next t)
