-- ===== src/Security/Risk/Redirected.antt =====
-- Commands that redirect their output to a file (src/runtime/security/risk_classifier.py).
use local_coding_agent_harne.Prelude.{◌≡◌, true, false, none, ◌∷◌, ◌++◌, Text}
use local_coding_agent_harne.Security.Shell.{unquoted, follows_angle}
use local_coding_agent_harne.Security.Shell.Cut.{run}
use local_coding_agent_harne.Security.Shell.Redirections.{is_undirected, last_of}
use local_coding_agent_harne.Security.Shell.Targets.{NamesPath}

-- The command is `before`, its first operator `>` outside of quotes, which does not stand behind
-- `<`, and `text`, in which a word that names the path `target` follows.
pub record RedirectsTo (lower : Text → Text) (command before text target : Text) : Type 0 where
  pub whole : command ≡ before ++ b'>' ∷ text
  pub outside : run unquoted before ≡ unquoted
  pub first : is_undirected unquoted before ≡ true
  pub apart : follows_angle (last_of none before) ≡ false
  pub named : NamesPath lower text target
