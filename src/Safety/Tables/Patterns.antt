-- ===== src/Safety/Tables/Patterns.antt =====
-- internal/safety/guard.go: dangerousArgPatterns and mutatingPositionals.
-- The patterns are the trees that package regexp makes of them, on ASCII text.
use multi_agent_system_turbo.Base.{ℕ, ◌-◌, List, [], ◌∷◌, Str, bytes, map}
use multi_agent_system_turbo.Regexp.{
  Re, empty, one_of, none_of, seq, alt, star, any_byte, chr, lit, alts, seqs, some_of, maybe, found,
}

-- A letter in either case, given in lower case.
abbrev any_case : ℕ → Re
any_case c = one_of ((c, c) ∷ (c - 32, c - 32) ∷ [])

abbrev lit_any_case : Str → Re
lit_any_case s = seqs (map any_case s)

abbrev word_ranges : List (ℕ × ℕ)
word_ranges = (48, 57) ∷ (65, 90) ∷ (95, 95) ∷ (97, 122) ∷ []

-- `\bname\s+-c\b`, anywhere in the text, in any case of the letters
abbrev shell_call : Str → Re
shell_call name = seqs (
    alt empty (seq (star any_byte) (none_of word_ranges))
    ∷ lit_any_case name
    ∷ some_of (one_of ((9, 10) ∷ (12, 13) ∷ (32, 32) ∷ []))
    ∷ chr b'-'
    ∷ any_case b'c'
    ∷ alt empty (seq (none_of word_ranges) (star any_byte))
    ∷ [])

unfoldable pub dangerous_arg_patterns : List Re
dangerous_arg_patterns =
    found (
      one_of (
        (59, 59)
        ∷ (38, 38)
        ∷ (124, 124)
        ∷ (96, 96)
        ∷ (36, 36)
        ∷ (62, 62)
        ∷ (60, 60)
        ∷ (10, 10)
        ∷ (13, 13)
        ∷ []))
    ∷ found (lit (bytes "$("))
    ∷ found (seqs (chr b'.' ∷ chr b'.' ∷ one_of ((92, 92) ∷ (47, 47) ∷ []) ∷ []))
    ∷ found (chr 0)
    ∷ seqs (
        chr b'-'
        ∷ maybe (chr b'-')
        ∷ alts (
            lit_any_case (bytes "exec")
            ∷ seqs (lit_any_case (bytes "eval") ∷ chr b'-' ∷ lit_any_case (bytes "file") ∷ [])
            ∷ lit_any_case (bytes "shell")
            ∷ lit_any_case (bytes "command")
            ∷ [])
        ∷ [])
    ∷ shell_call (bytes "sh")
    ∷ shell_call (bytes "bash")
    ∷ []

unfoldable pub mutating_positionals : List Str
mutating_positionals = map bytes (
    "delete" ∷ "del" ∷ "remove" ∷ "rm" ∷ "rmdir" ∷ "destroy" ∷ "drop" ∷ "truncate" ∷ "purge"
    ∷ "wipe" ∷ "erase" ∷ "unlink" ∷ "move" ∷ "mv" ∷ "rename" ∷ "copy" ∷ "cp" ∷ "create" ∷ "add"
    ∷ "insert" ∷ "update" ∷ "upsert" ∷ "put" ∷ "post" ∷ "patch" ∷ "write" ∷ "modify" ∷ "edit"
    ∷ "alter" ∷ "apply" ∷ "replace" ∷ "set" ∷ "unset" ∷ "install" ∷ "uninstall" ∷ "upgrade"
    ∷ "downgrade" ∷ "rollback" ∷ "migrate" ∷ "restart" ∷ "reboot" ∷ "shutdown" ∷ "stop" ∷ "start"
    ∷ "kill" ∷ "terminate" ∷ "scale" ∷ "cordon" ∷ "drain" ∷ "taint" ∷ "evict" ∷ "failover"
    ∷ "promote" ∷ "demote" ∷ "rebalance" ∷ "reassign" ∷ "reset" ∷ "flush" ∷ "compact" ∷ "expire"
    ∷ "chmod" ∷ "chown" ∷ "chgrp" ∷ "mkfs" ∷ "dd" ∷ "truncate-log" ∷ "flushall" ∷ "flushdb"
    ∷ "bgsave" ∷ "bgrewriteaof" ∷ "swapdb" ∷ "replicaof" ∷ "slaveof" ∷ "debug" ∷ "eval" ∷ "evalsha"
    ∷ "script" ∷ "restore" ∷ "setex" ∷ "setnx" ∷ "getset" ∷ "append" ∷ "incr" ∷ "incrby" ∷ "decr"
    ∷ "decrby" ∷ "lpush" ∷ "rpush" ∷ "lpop" ∷ "rpop" ∷ "sadd" ∷ "srem" ∷ "zadd" ∷ "zrem" ∷ "hset"
    ∷ "hdel" ∷ "xadd" ∷ "xtrim" ∷ "pfadd" ∷ "persist" ∷ "pexpire" ∷ "sort" ∷ "keys" ∷ "monitor"
    ∷ "subscribe" ∷ "psubscribe" ∷ "sync" ∷ "psync" ∷ "swapdb" ∷ "dropdatabase" ∷ "dropindex"
    ∷ "createindex" ∷ "compactdb" ∷ "shutdownserver" ∷ "truncatetable" ∷ "grant" ∷ "revoke" ∷ "push"
    ∷ "commit" ∷ "merge" ∷ "rebase" ∷ "cherry-pick" ∷ "revert" ∷ "tag" ∷ "gc" ∷ "prune" ∷ "clean"
    ∷ "checkout" ∷ "switch" ∷ "restore-file" ∷ [])
