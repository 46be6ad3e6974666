-- ===== src/Providers/Host.antt =====
-- What the provider code asks of Qt and of the machine, as parameters of the model.
use bb_auth.Prelude.{ℕ, Bool, String, List, Option}
use bb_auth.Prelude.Hash.{Hash}
use bb_auth.Json.{Object}

-- What QJsonDocument::fromJson makes of a file.
pub data Document : Type 0 where
  invalid : String → Document
  other : Document
  object : Object → Document

pub record Host : Type 0 where
  -- QString::trimmed, QDir::isAbsolutePath, QDir::cleanPath, QString::number
  pub trimmed : String → String
  pub is_absolute_path : String → Bool
  pub clean_path : String → String
  pub number : ℕ → String
  pub from_json : String → Document
  -- the readable "*.json" files of a directory by name, each with its content if it opens
  pub dir_exists : String → Bool
  pub entries : String → List (String × Option String)
  -- QStandardPaths::findExecutable, QFileInfo, QProcessEnvironment::systemEnvironment
  pub find_executable : String → String
  pub is_executable_file : String → Bool
  pub system_environment : Hash String String
  -- m_startProcessFn, m_nowFn, and the draw of QRandomGenerator::bounded(121)
  pub start_process : String → List String → Hash String String → Bool
  pub now : ℕ
  pub jitter : ℕ
