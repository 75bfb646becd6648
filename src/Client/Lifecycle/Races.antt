-- ===== src/Client/Lifecycle/Races.antt =====
-- client.go: Disconnect while a connection attempt is under way.
use go_openlawsvpn.Base.{
  ℕ, Option, Bytes, ◌≡◌, refl, ap, arith, Bool, true, false, List, [], ◌∷◌, ◌++◌, Result, ok, err,
  panic, ◌>>=◌, ◌∙◌,
}
use go_openlawsvpn.Client.Lifecycle.{
  Client, Phase, Phase2, Reason, cache_token, cache, Refusal, Event, clear_credentials,
  set_disconnected, disconnect, marked, teardown, torn_down, close_done, step, kept, run,
}
use go_openlawsvpn.Client.Lifecycle.Cleanup.{Resources}

-- If Disconnect is called while an attempt to connect is under way, and the attempt then fails before the
-- goroutine of the teardown has set the state, the client panics: the failure closes doneCh, and that
-- goroutine closes it again.
pub disconnect_then_failed :
    (c : Client) (preserve has_index : Bool) (r : Reason)
    → c.state ≡ Phase.connecting
    → c.done_closed ≡ false
    → run
        (Event.disconnect_call preserve
          ∷ (Event.failed r ∷ (Event.torn has_index ∷ (Event.close_channel ∷ []))))
        c
      ≡ panic
unfolding run step set_disconnected disconnect teardown close_done clear_credentials
disconnect_then_failed c true has_index r h k = ground (arith, h, k)
disconnect_then_failed c false has_index r h k = ground (arith, h, k)

-- Three steps of a teardown by Disconnect, on a client with the tunnel up and doneCh closed.
up_then_disconnect :
    (c : Client) (preserve has_index : Bool)
    → c.state ≡ Phase.tunnel_up
    → c.done_closed ≡ true
    → run (Event.disconnect_call preserve ∷ (Event.torn has_index ∷ (Event.close_channel ∷ []))) c
      ≡ panic
unfolding run step disconnect teardown close_done clear_credentials
up_then_disconnect c true has_index h k = ground (arith, h, k)
up_then_disconnect c false has_index h k = ground (arith, h, k)

-- The client that the teardown of an attempt to connect leaves.
ended : Bool → Bool → Client → Client
ended preserve has_index c =
    record (torn_down has_index (record (marked preserve c) { state = Phase.disconnecting })) {
      waiting = 0;
      ending = 0;
      done_closed = true;
    }

teardown_runs :
    (c : Client) (preserve has_index : Bool)
    → c.state ≡ Phase.connecting
    → c.done_closed ≡ false
    → c.waiting ≡ 0
    → c.ending ≡ 0
    → run (Event.disconnect_call preserve ∷ (Event.torn has_index ∷ (Event.close_channel ∷ []))) c
      ≡ ok (ended preserve has_index c)
unfolding run step disconnect teardown close_done clear_credentials ended
teardown_runs c true has_index h k w e = ground (arith, h, k, w, e)
teardown_runs c false has_index h k w e = ground (arith, h, k, w, e)

run-append : (xs ys : List Event) (c : Client) → run (xs ++ ys) c ≡ (run xs c >>= λ c'. run ys c')
unfolding run
run-append [] ys c = refl
run-append (e ∷ xs) ys c = behind (kept c (step e c)) (λ c'. run-append xs ys c')
  where
    behind :
        (r : Result Refusal Client)
        → ((c' : Client) → run (xs ++ ys) c' ≡ (run xs c' >>= λ c''. run ys c''))
        → (r >>= λ c'. run (xs ++ ys) c') ≡ ((r >>= λ c'. run xs c') >>= λ c''. run ys c'')
    behind (ok c') h = h c'
    behind (err x) h = refl
    behind panic h = refl

-- If Disconnect is called while an attempt to connect is under way, its teardown runs to the end, and the
-- attempt then succeeds, the Disconnect is lost: the client is in the state tunnel_up although doneCh is
-- closed, and the teardown of the next Disconnect panics.
pub disconnect_then_up :
    (c : Client) (preserve again has_index : Bool) (held : Resources)
    → c.state ≡ Phase.connecting
    → c.done_closed ≡ false
    → c.waiting ≡ 0
    → c.ending ≡ 0
    → (c' : Client) × (run
          ((Event.disconnect_call preserve ∷ (Event.torn has_index ∷ (Event.close_channel ∷ [])))
            ++ (Event.up held ∷ []))
          c
        ≡ ok c')
      × (c'.state ≡ Phase.tunnel_up)
      × (c'.done_closed ≡ true)
      × (run (Event.disconnect_call again ∷ (Event.torn has_index ∷ (Event.close_channel ∷ []))) c'
          ≡ panic)
unfolding run step ended
disconnect_then_up c preserve again has_index held h k w e =
    let mid = ended preserve has_index c in
    let c' = record mid {
      state = Phase.tunnel_up;
      resources = record held { data_ch = mid.resources.data_ch };
    } in
    (
      c',
      run-append
            (Event.disconnect_call preserve ∷ (Event.torn has_index ∷ (Event.close_channel ∷ [])))
            (Event.up held ∷ []) c
          ∙ ap (λ r. r >>= λ x. run (Event.up held ∷ []) x)
              (teardown_runs c preserve has_index h k w e),
      refl,
      refl,
      up_then_disconnect c' again has_index refl refl,
    )

-- connectPhase2 does not look at the state again before it caches the token. If an explicit Disconnect and
-- its teardown run to the end between the two, the client is disconnected and holds the token.
disconnect_then_cached :
    (c : Client) (has_index : Bool) (state_id text : Bytes) (expiry : Option ℕ)
    → c.state ≡ Phase.connecting
    → c.phase2_at ≡ Phase2.has_checked state_id
    → c.done_closed ≡ false
    → c.waiting ≡ 0
    → c.ending ≡ 0
    → (c' : Client) × (run
          ((Event.disconnect_call false ∷ (Event.torn has_index ∷ (Event.close_channel ∷ [])))
            ++ (Event.token text expiry ∷ []))
          c
        ≡ ok c')
      × (c'.state ≡ Phase.disconnected)
      × (c'.cached_token ≡ text)
unfolding run step cache_token ended clear_credentials
disconnect_then_cached c has_index state_id text expiry h p k w e =
    let left = ended false has_index c in
    (
      record (cache text expiry state_id left) { phase2_at = Phase2.has_cached state_id },
      run-append (Event.disconnect_call false ∷ (Event.torn has_index ∷ (Event.close_channel ∷ [])))
            (Event.token text expiry ∷ []) c
          ∙ ap (λ r. r >>= λ x. run (Event.token text expiry ∷ []) x)
              (teardown_runs c false has_index h k w e)
          ∙ ap (λ at. kept left (cache_token at text expiry left) >>= λ x. ok x) p,
      refl,
      refl,
    )
