-- ===== src/Spark/Client/Release.antt =====
-- pkg/spark/client.go: GetSessionID, Close and releaseSparkSession. They read the fields of
-- spark-connect-go by reflection: what FieldByName and MethodByName find there is none where it is
-- not valid, and a panic of package reflect is one of the values.
use livy_next.Prelude.{◌≡◌, Bool, arith, [], Option, none, some, Text, if◌then◌else◌}
use livy_next.Prelude.Outcome.{Outcome, value, panic, bind}

-- UserId and UserAgent of the field opts.
pub record Options : Type 0 where
  pub user_id : Text
  pub user_agent : Text

-- generated.ReleaseSessionRequest, as far as it is filled in.
pub record ReleaseRequest : Type 0 where
  pub session_id : Text
  pub user_id : Text
  pub client_type : Text

-- What MethodByName("ReleaseSession") finds; `fits` is false where setting the fields of a new
-- request panics.
pub record Method : Type 0 where
  pub fits : Bool

-- The client of a session and its fields sessionId, opts and client; the last holds the method.
pub record ClientImpl : Type 0 where
  pub session_id : Option Text
  pub opts : Option (Outcome Options)
  pub rpc : Option (Outcome (Option Method))

-- The field client of the session, and the value that its interface points to.
abbrev pub Reflected : Type 0
Reflected = Outcome (Option (Outcome ClientImpl))

-- defer func() { _ = recover() }(): the zero value of the result where the body panics.
abbrev recovered : {A : Type 0} → A → Outcome A → A
recovered zero_value (value a) = a
recovered zero_value panic = zero_value

-- An early return with the given result where a field is not valid.
abbrev if_valid : {A B : Type 0} → Option A → B → (A → Outcome B) → Outcome B
if_valid none result f = value result
if_valid (some a) result f = f a

abbrev with_client : {B : Type 0} → Reflected → B → (ClientImpl → Outcome B) → Outcome B
with_client s result f = bind s (λ field. if_valid field result (λ pointer. bind pointer f))

unfoldable pub get_session_id : Reflected → Text
get_session_id s = recovered [] (with_client s [] (λ c. if_valid c.session_id [] value))

request : Text → Options → ReleaseRequest
request id o = record { session_id = id; user_id = o.user_id; client_type = o.user_agent }

release_with : Text → Options → Method → Outcome (Option ReleaseRequest)
unfolding request
release_with id o m = if m.fits then value (some (request id o)) else panic

unfoldable pub release_fields :
    Option Text
    → Option (Outcome Options)
    → Option (Outcome (Option Method))
    → Outcome (Option ReleaseRequest)
unfolding release_with
release_fields session_id opts rpc = if_valid session_id none (λ id. if_valid opts none (λ opts_val.
    bind opts_val (λ o.
      if_valid rpc none
        (λ rpc_val. bind rpc_val (λ method. if_valid method none (release_with id o))))))

-- The request that is sent, if one is.
unfoldable pub release_spark_session : Reflected → Option ReleaseRequest
release_spark_session s =
    recovered none (with_client s none (λ c. release_fields c.session_id c.opts c.rpc))

-- The request that is sent, and the error; that of Stop is ignored.
unfoldable pub close : Option Text → Reflected → Option ReleaseRequest × Option Text
close stop s = (release_spark_session s, none)

release_fields_lem :
    (session_id : Option Text) (opts : Option (Outcome Options))
    (rpc : Option (Outcome (Option Method))) {r : ReleaseRequest}
    → recovered none (release_fields session_id opts rpc) ≡ some r
    → r.session_id ≡ recovered [] (if_valid session_id [] value)
unfolding release_fields
release_fields_lem none opts rpc h = absurd cc
release_fields_lem (some id) none rpc h = absurd cc
release_fields_lem (some id) (some panic) rpc h = absurd cc
release_fields_lem (some id) (some (value o)) none h = absurd cc
release_fields_lem (some id) (some (value o)) (some panic) h = absurd cc
release_fields_lem (some id) (some (value o)) (some (value none)) h = absurd cc
release_fields_lem (some id) (some (value o)) (some (value (some m))) {r} h = ground arith

-- The request that Close sends, if it sends one, has the session id that GetSessionID answers,
-- however the fields of the library are found.
close_lem :
    (stop : Option Text) (s : Reflected) {r : ReleaseRequest}
    → (close stop s).0 ≡ some r
    → r.session_id ≡ get_session_id s
unfolding close release_spark_session get_session_id
close_lem stop panic h = absurd cc
close_lem stop (value none) h = absurd cc
close_lem stop (value (some panic)) h = absurd cc
close_lem stop (value (some (value c))) {r} h = release_fields_lem c.session_id c.opts c.rpc h
