-- ===== src/Adapter/Effects.antt =====
-- internal/manager/hostfuncs.go over internal/adapter/adapter.go: what the host functions do to a
-- Dragonfly server.
use dragonfly_wasm.Prelude.{
  ℕ, ◌≡◌, refl, sym, ◌∙◌, ap, subst, ◌⊎◌, inl, inr, true, Option, none, some, List, if◌then◌else◌,
  is_some, arith, Bool-cases,
}
use dragonfly_wasm.Prelude.Results.{Result, ok, err}
use dragonfly_wasm.Manager.HostFunctions.{set_block, set_player_health, run}
use dragonfly_wasm.Manager.HostFunctions.Requests.{Codec}
use dragonfly_wasm.Manager.HostFunctions.Calls.{HostState, Env}
use dragonfly_wasm.Manager.HostFunctions.Commands.{
  health, on_found, decoded, carry_out, requested, word, run-requested,
}
use dragonfly_wasm.Adapter as Adapters
use dragonfly_wasm.Adapter.{
  Dragonfly, State, adapter, world_adapter, player_adapter, get_player, set_named, block_by_name,
}

module _ {W P D B G F F32 : Type 0} (game : Dragonfly W P D B G F) (codec : Codec F F32) where
  set_block-carried :
      (r : Result (List ℕ)) (s : State game)
      → carry_out (some (adapter game)) (decoded codec set_block r) s
        ≡ (if is_some (decoded codec set_block r) then none else some "no command", s)
  unfolding set_named block_by_name Adapters.set_block adapter world_adapter
  set_block-carried (err e) s = refl
  set_block-carried (ok bytes) s = go (codec.set_block_request bytes) refl
    where
      go :
          (o : Result _)
          → codec.set_block_request bytes ≡ o
          → carry_out (some (adapter game)) (decoded codec set_block (ok bytes)) s
            ≡ (if is_some (decoded codec set_block (ok bytes)) then none else some "no command", s)
      go (ok r) e = rw e refl
      go (err x) e = rw e refl

  -- The server stays as it was, or a player is healed by what a wanted health exceeds the present one.
  abbrev pub OnlyHeals : State game → State game → Type 0
  OnlyHeals s t =
      (t ≡ s)
      ⊎ ((p : P) × (wanted : F) × (game.is_greater wanted (game.health p s.1) ≡ true)
          × (t ≡ (s.0, game.heal p (game.minus wanted (game.health p s.1)) s.1)))

  set_health-OnlyHeals :
      (p : P) (wanted : F) (s : State game) → OnlyHeals s (Adapters.set_health game p wanted s)
  unfolding Adapters.set_health
  set_health-OnlyHeals p wanted (players, w) =
      elim (Bool-cases (game.is_greater wanted (game.health p w))) [
        | inl t ↦ rw t (inr (p, wanted, t, refl))
        | inr f ↦ rw f (inl refl)
      ]

  found-OnlyHeals :
      (o : Option P) (wanted : F) (s : State game)
      → OnlyHeals s (on_found (adapter game) o (health wanted) s).1
  unfolding adapter player_adapter
  found-OnlyHeals none wanted s = inl refl
  found-OnlyHeals (some p) wanted s = set_health-OnlyHeals p wanted s

  health-carried :
      (r : Result (List ℕ)) (s : State game)
      → OnlyHeals s (carry_out (some (adapter game)) (decoded codec set_player_health r) s).1
  health-carried (err e) s = inl refl
  health-carried (ok bytes) s = go (codec.set_health_request bytes) refl
    where
      go :
          (o : Result _)
          → codec.set_health_request bytes ≡ o
          → OnlyHeals s
              (carry_out (some (adapter game)) (decoded codec set_player_health (ok bytes)) s).1
      go (ok r) e = rw e (found-OnlyHeals ((adapter game).get_player r.player_uuid s) _ s)
      go (err x) e = rw e (inl refl)

module _ {W P D B G F F32 M : Type 0} (game : Dragonfly W P D B G F)
    (env : Env (State game) P D F F32 M) (serves : env.server_api ≡ some (adapter game)) (slot : ℕ)
    (s : HostState (State game) M) where
  -- Over the adapter, `host_set_block` never places a block: the server stays as it was, and the
  -- plugin is told 1, for success, whenever its request could be read.
  pub set_block_keeps :
      ((run env set_block slot s).1.server ≡ s.server)
      × ((run env set_block slot s).0 ≡ (
          if is_some (decoded env.codec set_block (env.plugin.read_bytes slot s.memory))
          then 1
          else 0))
  set_block_keeps =
      let (answered, left, _) = run-requested env slot s set_block refl in
      let carried : requested env slot s set_block ≡ (
        if is_some (decoded env.codec set_block (env.plugin.read_bytes slot s.memory))
            then none
            else some "no command",
        s.server,
      ) =
        rw serves
          (set_block-carried game env.codec (env.plugin.read_bytes slot s.memory) s.server) in
      (left ∙ ap (λ r. r.1) carried, answered ∙ ap (λ r. word r.0) carried ∙ ground arith)

  -- Over the adapter, a request to set the health of a player can only raise it: the server stays
  -- as it was, or a player is healed by what the wanted health exceeds the present one.
  pub run-OnlyHeals : OnlyHeals game env.codec s.server (run env set_player_health slot s).1.server
  run-OnlyHeals =
      let (answered, left, _) = run-requested env slot s set_player_health refl in
      subst (OnlyHeals game env.codec s.server) (sym left)
        (rw serves (health-carried game env.codec (env.plugin.read_bytes slot s.memory) s.server))
