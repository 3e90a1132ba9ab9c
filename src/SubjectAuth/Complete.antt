-- ===== src/SubjectAuth/Complete.antt =====
-- SubjectAuthService.complete: the provider's redirect claims its session, and finishes it.
use consent_manager.Base.{
  String, Option, none, some, truthy, or_empty, Result, ok, err, if◌then◌else◌,
}
use consent_manager.Models.Rows.{Time, SubjectAuthSession, AuthContext}
use consent_manager.Models.Database.{Database}
use consent_manager.Config.{Settings}
use consent_manager.Lifecycle.Errors.{error, Fallible}
use consent_manager.SubjectAuth.Sessions.{Ending, succeeded, failed, claim, finish}
use consent_manager.SubjectAuth.Provider.{Provider, Redirect, authenticate}

abbrev pub ending_of : Result String AuthContext → Ending
ending_of (err message) = failed message
ending_of (ok context) = succeeded context

module _ (config : Settings) (provider : Provider) (meanwhile : Database → Database) (now : Time)
    (redirect : Redirect) where
  -- The database as the claim left it, and what others commit until the session is finished.
  unfoldable pub finish_claimed :
      Option String × Database → Fallible (Option SubjectAuthSession) × Database
  finish_claimed (none, db) =
      (err (error 400 "this login link is unknown, already used or expired; start again"), db)
  finish_claimed (some session_id, db) =
      let ending = ending_of (authenticate config provider now redirect session_id db) in
      let (row, after) = finish session_id now ending (meanwhile db) in (ok row, after)

  -- SubjectAuthService.complete
  unfoldable pub complete :
      Option String → Database → Fallible (Option SubjectAuthSession) × Database
  unfolding finish_claimed
  complete state db =
      if truthy state
      then finish_claimed (claim (or_empty state) now db)
      else (err (error 400 "missing state"), db)
