-- ===== src/Security/Risk/Tables.antt =====
-- The tables of src/runtime/security/risk_classifier.py; of FILE_WRITE_PATTERNS the keys.
use local_coding_agent_harne.Prelude.{List, [], ◌∷◌, Text, codes}

abbrev pub destructive_patterns : List Text
destructive_patterns =
    codes "rm -rf"
    ∷ codes "rm -fr"
    ∷ codes "git reset --hard"
    ∷ codes "git clean"
    ∷ codes "sudo"
    ∷ codes "chmod 777"
    ∷ codes "mkfs"
    ∷ codes "dd if="
    ∷ codes "shutdown"
    ∷ codes "reboot"
    ∷ codes ":(){ :|:& };:"
    ∷ codes "remove-item -recurse"
    ∷ codes "shutil.rmtree"
    ∷ codes "rmdir"
    ∷ []

abbrev pub file_write_patterns : List Text
file_write_patterns =
    codes "set-content"
    ∷ codes "out-file"
    ∷ codes "add-content"
    ∷ codes "sed -i"
    ∷ codes "tee "
    ∷ codes "tee-object"
    ∷ codes "new-item"
    ∷ codes "copy-item"
    ∷ codes "move-item"
    ∷ codes "clear-content"
    ∷ []

abbrev pub network_patterns : List Text
network_patterns =
    codes "curl"
    ∷ codes "wget"
    ∷ codes "invoke-webrequest"
    ∷ codes "invoke-restmethod"
    ∷ codes "irm "
    ∷ codes "iwr "
    ∷ codes "pip install"
    ∷ codes "npm install"
    ∷ codes "git clone"
    ∷ codes "git pull"
    ∷ codes "git fetch"
    ∷ []

abbrev pub safe_check_prefixes : List Text
safe_check_prefixes =
    codes "pytest"
    ∷ codes "python -m pytest"
    ∷ codes "python3 -m pytest"
    ∷ codes "py -m pytest"
    ∷ codes "python -m py_compile"
    ∷ codes "python3 -m py_compile"
    ∷ codes "py -m py_compile"
    ∷ codes "python -m compileall"
    ∷ codes "python3 -m compileall"
    ∷ codes "py -m compileall"
    ∷ codes "uv run pytest"
    ∷ codes "poetry run pytest"
    ∷ codes "ruff check"
    ∷ codes "mypy"
    ∷ codes "npm test"
    ∷ codes "node --check"
    ∷ codes "sh -n"
    ∷ codes "bash -n"
    ∷ codes "python -m unittest"
    ∷ codes "python3 -m unittest"
    ∷ codes "test"
    ∷ codes "["
    ∷ []

abbrev pub read_only_prefixes : List Text
read_only_prefixes =
    codes "git status"
    ∷ codes "git diff"
    ∷ codes "git log"
    ∷ codes "dir"
    ∷ codes "ls"
    ∷ codes "pwd"
    ∷ codes "tree"
    ∷ codes "get-childitem"
    ∷ codes "gci"
    ∷ codes "get-location"
    ∷ codes "gl"
    ∷ codes "select-string"
    ∷ codes "sls"
    ∷ codes "type"
    ∷ codes "cat"
    ∷ codes "get-content"
    ∷ codes "findstr"
    ∷ codes "grep"
    ∷ codes "rg"
    ∷ codes "echo"
    ∷ codes "printf"
    ∷ codes "head"
    ∷ codes "tail"
    ∷ codes "wc"
    ∷ codes "stat"
    ∷ codes "file"
    ∷ codes "which"
    ∷ codes "where"
    ∷ codes "test-path"
    ∷ []

abbrev pub python_inline_prefixes : List Text
python_inline_prefixes = codes "python -c" ∷ codes "python3 -c" ∷ codes "py -c" ∷ []
