-- ===== src/Gateway.antt =====
-- bridge/gateway/join.go: an agent's request to join, from the limiter to `Join`. The limiter, the codecs,
-- the validation and the HTTP server are parameters; `Auth` and `Join` are the hub's.
pub mod Refusals
use ssoc_broker.Base.{
  ℕ, ◌*◌, List, [], ◌∷◌, Option, none, some, Bool, true, false, if◌then◌else◌, Text, take,
}
use ssoc_broker.Store.{Result, ok, missing, failed}
use ssoc_broker.Mlink.Ident.{Ident, Issue}
use ssoc_broker.Mlink.Hub.{
  Hub, Started, taken, dropped, serving, Auth, accepted, refused, auth, join_start,
}
use ssoc_broker.Mlink.Hub.Steps.{Site}

-- What the request meets on its way.
pub record Request : Type 0 where
  pub allowed : Bool
  pub body : Text
  pub hijacker : Bool
  pub hijacked : Bool
  pub written : Bool
  pub now : ℕ
  pub pick : ℕ

pub record Codec : Type 0 where
  pub decrypt : Text → Result Ident
  pub validate : Ident → Option Text
  pub encrypt : Issue → Result Text
  pub fill : ℕ → Text

-- A problem with its status; or the connection taken over and closed before the answer was written; or
-- 202 with the issue written, and what `Join` then made of it.
pub data Reply : Type 0 where
  problem : ℕ → Reply
  broken : Reply
  answered : Text → Issue → Started → Reply

module _ (site : Site) (codec : Codec) (req : Request) where
  -- From the hijacking on.
  unfoldable pub upgrade : Ident → Issue → Text → Hub → Option (Hub × Reply)
  unfolding join_start
  upgrade ident issue dat h =
      if req.hijacker
      then if req.hijacked
        then if req.written
          then elim (join_start site.tbl site.other site.delete_tags site.insert_tags site.bid
              site.broker_name req.now ident issue h) [
                | none ↦ none
                | some (h', started) ↦ some (h', answered dat issue started)
              ]
          else some (h, broken)
        else some (h, problem 400)
      else some (h, problem 400)

  unfoldable pub admit : Ident → Hub → Option (Hub × Reply)
  unfolding upgrade auth
  admit ident h =
      let (h', judged) = auth site.tbl site.other req.now ident req.pick codec.fill h in
      elim judged [
        | refused code e ↦ some (h', problem code)
        | accepted issue ↦ elim (codec.encrypt issue) [
          | ok dat ↦ upgrade ident issue dat h'
          | missing ↦ some (h', problem 500)
          | failed e ↦ some (h', problem 500)
        ]
      ]

  unfoldable pub serve_http : Hub → Option (Hub × Reply)
  unfolding admit
  serve_http h =
      if req.allowed
      then elim (codec.decrypt (take (100 * 1024) req.body)) [
        | ok ident ↦ elim (codec.validate ident) [
          | none ↦ admit ident h
          | some e ↦ some (h, problem 400)
        ]
        | missing ↦ some (h, problem 400)
        | failed e ↦ some (h, problem 400)
      ]
      else some (h, problem 429)
