-- ===== src/Feed.antt =====
-- What a publish/subscribe channel of `n` slots promises to one subscriber: the publications are
-- numbered, and the subscriber's place is the number of the next one that it is due. A subscriber that
-- has fallen a whole round or more behind is taken forward by whole rounds.
use shm_comm.Prelude.{
  ℕ, ◌+◌, ◌-◌, ◌%◌, ◌==◌, Option, none, List, [], ◌∷◌, ◌++◌, length, get_elem?, if◌then◌else◌,
}

pub record Feed (A : Type 0) : Type 0 where
  pub sent : List A
  pub place : ℕ

module _ {A : Type 0} where
  unfoldable pub publish : A → Feed A → Feed A
  publish p f = record f { sent = f.sent ++ p ∷ [] }

  -- Publications that the subscriber will still see, of those made so far.
  unfoldable pub pending : ℕ → Feed A → ℕ
  pending n f = (length f.sent - f.place) % n

  unfoldable pub receive : ℕ → Feed A → Option A × Feed A
  unfolding pending
  receive n f = if pending n f == 0 then (none, record f { place = length f.sent }) else (
    get_elem? f.sent (length f.sent - pending n f),
    record f { place = length f.sent - pending n f + 1 },
  )
