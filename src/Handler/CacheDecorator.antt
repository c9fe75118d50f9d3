-- ===== src/Handler/CacheDecorator.antt =====
-- internal/handler/cache_decorator.go: a section lane behind the persona cache. The lane inside, which
-- crawls, is a parameter.
pub mod Replay
pub mod Shared
use go_you.Common.{
  ℕ, Bool, true, false, not, ◌&&◌, ◌||◌, Option, none, some, ◌>>=◌, Text, codes, ◌==◌, List, [],
  is_some, get_or, if◌then◌else◌,
}
use go_you.Common.Int.{ℤ, pos}
use go_you.Dynamo.{Dynamo, Read, missed, broken, hit}
use go_you.PersonaCache.{Repo, key, get}
use go_you.PersonaCache.WriteBack.{Write}

-- The sections of a `PersonaResponse`, the rest of which no section lane touches.
pub record Response (S : Type 0) : Type 0 where
  pub phone_data : Option S
  pub email_data : Option S

pub data Kind : Type 0 where
  phone email : Kind

abbrev pub kind_text : Kind → Text
kind_text phone = codes "phone"
kind_text email = codes "email"

unfoldable pub get_section : {S : Type 0} → Kind → Response S → Option S
get_section phone resp = resp.phone_data
get_section email resp = resp.email_data

unfoldable pub set_section : {S : Type 0} → Kind → Response S → Option S → Response S
set_section phone resp sec = record resp { phone_data = sec }
set_section email resp sec = record resp { email_data = sec }

-- `wrapSection`
unfoldable pub wrap_section : {S : Type 0} → Kind → S → Response S
wrap_section phone sec = record { phone_data = some sec; email_data = none }
wrap_section email sec = record { phone_data = none; email_data = some sec }

-- `sectionFromCache`
unfoldable pub section_from_cache : {S : Type 0} → Kind → Response S → Option S
section_from_cache phone cached = cached.phone_data
section_from_cache email cached = cached.email_data

pub record LaneState (S : Type 0) : Type 0 where
  pub login_id : Text
  pub tenant_id : Text
  pub caching : Bool
  pub resp : Response S

-- The lane inside: its gate and what its `Run` makes of the response.
pub record Lane (S : Type 0) : Type 0 where
  pub kind : Kind
  pub gate : LaneState S → Bool
  pub run : LaneState S → Option S

-- What the decorator keeps between `Gate` and `Run`.
pub record Decorator : Type 0 where
  pub found : Bool
  pub cache_key : Text
  pub now : ℤ

abbrev pub new_decorator : Decorator
new_decorator = record { found = false; cache_key = []; now = pos 0 }

-- The response of a hit; it stays as it is on a miss or an error.
unfoldable pub replay : {S : Type 0} → Kind → Response S → Read (Response S) → Response S
unfolding set_section section_from_cache
replay kind resp missed = resp
replay kind resp broken = resp
replay kind resp (hit cached) = set_section kind resp (section_from_cache kind cached)

abbrev pub is_hit : {D : Type 0} → Read D → Bool
is_hit (hit d) = true
is_hit _ = false

module _ {D S : Type 0} (db : Dynamo D) (md5 : Text → Text) (repo : Option Repo)
    (decode : Text → Option (Response S)) (lane : Lane S) where
  -- `Gate`: whether the lane is to run, the decorator and the response.
  unfoldable pub gate : D → ℤ → LaneState S → Bool × Decorator × Response S
  unfolding replay
  gate d now st =
      if not (lane.gate st)
      then (false, new_decorator, st.resp)
      else if not (is_some repo) || not st.caching
      then (true, new_decorator, st.resp)
      else let k = key md5 repo (kind_text lane.kind) st.login_id st.tenant_id in
        let answer = get db repo decode d k now in
        (
          not (is_hit answer),
          record { found = is_hit answer; cache_key = k; now = now },
          replay lane.kind st.resp answer,
        )

  -- The write that `Run` leaves to a goroutine: what is stored is what the section is when it lands.
  unfoldable pub write_back : Decorator → Option S → Option (Write (Response S))
  unfolding wrap_section
  write_back c none = none
  write_back c (some sec) =
      some (record { key = c.cache_key; doc = wrap_section lane.kind sec; now = c.now })

  -- `Run`: the response and the write, if any.
  unfoldable pub run : Decorator → LaneState S → Response S × Option (Write (Response S))
  unfolding write_back set_section
  run c st =
      let sec = lane.run st in
      let resp = set_section lane.kind st.resp sec in
      if c.found || (c.cache_key == []) || not (is_some repo)
      then (resp, none)
      else (resp, write_back c sec)

  -- One request through the lane, as `runLanes` drives it: `Gate` on the store that it meets, then `Run`
  -- where it is to run.
  unfoldable pub serve : D → ℤ → LaneState S → Response S × Option (Write (Response S))
  unfolding gate run
  serve d now st = let g = gate d now st in if g.0 then run g.1 st else (g.2, none)
