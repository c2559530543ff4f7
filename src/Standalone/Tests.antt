-- ===== src/Standalone/Tests.antt =====
-- A listener with two clients of one address.
use dragonsunited_minecraft.Base.{[], ◌∷◌, List, some, ◌≡◌, refl, arith, Bytes}
use dragonsunited_minecraft.Run.{ok}
use dragonsunited_minecraft.Hash.{find, unlink}
use dragonsunited_minecraft.Standalone.Account.{Models, accept-child}
use dragonsunited_minecraft.Standalone.Sessions.{Sessions}
use dragonsunited_minecraft.Standalone.Trace.{
  Event, client, sigchld, Happens, nothing, started, not_started, reaps, all_ended, ended,
  listen_all, listen_all-Models, initial-Models,
}
use dragonsunited_minecraft.Standalone.{
  Listener, initial, parent, failed, child, pid_key, ip_key, accept_client, hash_ip,
}

abbrev address : Bytes
address = 192 ∷ 168 ∷ 1 ∷ 7 ∷ []

abbrev events : List Event
events =
    client address (parent 31)
    ∷ client address failed
    ∷ client address (parent 42)
    ∷ sigchld (31 ∷ [])
    ∷ []

abbrev left : Sessions
left = (42, address) ∷ []

events-Happens : Happens [] events left
unfolding find unlink
events-Happens = started 31 address refl (omega arith) (
    not_started address (omega arith)
      (started 42 address refl (omega arith) (reaps (ended address refl all_ended) nothing)))

listen_all-Models_example : (t : Listener) × (listen_all initial events ≡ ok t) × Models t left
listen_all-Models_example = listen_all-Models initial initial-Models events-Happens

accept-child_example :
    (t : Listener) × (accept_client initial address child
      ≡ ok (t, some (record { num_children = 1; num_this_ip = 1 })))
accept-child_example = accept-child initial [] initial-Models address (omega arith)

-- The four bytes of an IPv4 address make one word.
hash_ip_word : hash_ip 256 address ≡ 7
unfolding hash_ip
hash_ip_word = refl
