-- ===== src/Kernel/Unix/Tests.antt =====
-- A listener that is dialled twice and closed, and another at its address.
use pgzero.Base.{ℕ, ◌≡◌, refl, inl, true, false, List, [], ◌∷◌, ◌++◌, arith}
use pgzero.Paths.{Bytes, clean, parts, norm, push, render}
use pgzero.Kernel.Unix.{
  dialling, offer, new_unix, listen_unix, dial_unix, settle, accept, refuse, begin_close, end_close,
  broken,
}
use pgzero.Kernel.Unix.Served.{
  Event, listens, dials, makes_offer, accepts, begins_close, ends_close, step, run, one_listener,
}
use pgzero.Kernel.Unix.Draining.{closed_drains, waits_for}

-- "/s" and "/./s"
abbrev addr : Bytes
addr = 47 ∷ 115 ∷ []

abbrev other_spelling : Bytes
other_spelling = 47 ∷ 46 ∷ 47 ∷ 115 ∷ []

-- The third dial has found the first listener when it is closed, and offers itself after that.
abbrev first_closed : List Event
first_closed =
    listens addr
    ∷ dials addr
    ∷ makes_offer 0
    ∷ dials other_spelling
    ∷ makes_offer 1
    ∷ accepts 0 1
    ∷ dials addr
    ∷ begins_close 0
    ∷ ends_close 0
    ∷ []

abbrev second : List Event
second = listens other_spelling ∷ dials addr ∷ makes_offer 3 ∷ []

abbrev late : List Event
late = makes_offer 2 ∷ []

one_listener_example :
    ◌≡◌ {A = ℕ} 1 1
    × ((dial_unix addr (run (first_closed ++ second) new_unix)).0
        ≡ inl (run (first_closed ++ second) new_unix).dialled)
    × ((dial_unix addr (run (first_closed ++ second) new_unix)).1.conns
          (run (first_closed ++ second) new_unix).dialled
        ≡ dialling 1)
    × (((offer
            (run (first_closed ++ second) new_unix).dialled
            (dial_unix addr (run (first_closed ++ second) new_unix)).1).listeners
          1).offers
        ≡ (run (first_closed ++ second) new_unix).dialled
          ∷ ((run (first_closed ++ second) new_unix).listeners 1).offers)
unfolding run step listen_unix dial_unix offer accept settle begin_close end_close clean parts norm
    push render
one_listener_example = one_listener (first_closed ++ second) 1 1 addr refl refl refl refl

closed_drains_example :
    (waits_for 0 2 (run first_closed new_unix) ≡ true)
    × ((refuse 0 2 (offer 2 (run late (run first_closed new_unix)))).conns 2 ≡ broken)
    × (waits_for 0 2 (refuse 0 2 (offer 2 (run late (run first_closed new_unix)))) ≡ false)
unfolding run step listen_unix dial_unix offer accept settle begin_close end_close clean parts norm
    push render
closed_drains_example = closed_drains first_closed late 0 2 (omega arith) refl refl
