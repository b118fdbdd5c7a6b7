-- ===== src/Safety/Tables/Commands.antt =====
-- internal/safety/guard.go: DefaultCommandRules, entry by entry.
use multi_agent_system_turbo.Base.{List, [], ◌∷◌, bytes, map}
use multi_agent_system_turbo.Regexp.{Re, one_of, star, chr, lit, alts, seqs, some_of}
use multi_agent_system_turbo.Safety.Effects.{CommandRule}

abbrev blanks : Re
blanks = star (one_of ((9, 10) ∷ (12, 13) ∷ (32, 32) ∷ []))

abbrev quote : Re
quote = one_of ((39, 39) ∷ (34, 34) ∷ [])

eval_patterns : List Re
eval_patterns =
    lit (bytes "db.serverStatus()")
    ∷ lit (bytes "db.stats()")
    ∷ lit (bytes "db.currentOp()")
    ∷ lit (bytes "db.serverCmdLineOpts()")
    ∷ lit (bytes "db.hostInfo()")
    ∷ lit (bytes "db.getProfilingStatus()")
    ∷ seqs (
        lit (bytes "db.adminCommand({")
        ∷ blanks
        ∷ alts (
            map lit (
              map bytes (
                "serverStatus" ∷ "replSetGetStatus" ∷ "getCmdLineOpts" ∷ "hostInfo"
                ∷ "connPoolStats" ∷ "top" ∷ "listDatabases" ∷ [])))
        ∷ blanks
        ∷ chr b':'
        ∷ blanks
        ∷ chr b'1'
        ∷ blanks
        ∷ lit (bytes "})")
        ∷ [])
    ∷ lit (bytes "rs.status()")
    ∷ lit (bytes "rs.conf()")
    ∷ lit (bytes "sh.status()")
    ∷ seqs (
        lit (bytes "db.getSiblingDB(")
        ∷ quote
        ∷ some_of (one_of ((65, 90) ∷ (97, 122) ∷ (48, 57) ∷ (95, 95) ∷ (45, 45) ∷ []))
        ∷ quote
        ∷ lit (bytes ").stats()")
        ∷ [])
    ∷ []

unfoldable pub redis_cli_rule : CommandRule
redis_cli_rule = record {
  binary = bytes "redis-cli";
  description = bytes "Redis read-only inspection";
  flags_with_value = map bytes (
      "-h" ∷ "-p" ∷ "-n" ∷ "-t" ∷ "--user" ∷ "-u" ∷ "--tls" ∷ "--cacert" ∷ "--cert" ∷ "--key" ∷ []);
  allowed_verbs = map bytes (
      "info" ∷ "ping" ∷ "dbsize" ∷ "lastsave" ∷ "role" ∷ "time" ∷ "command" ∷ "client" ∷ "config"
      ∷ "cluster" ∷ "slowlog" ∷ "latency" ∷ "memory" ∷ "acl" ∷ "object" ∷ "type" ∷ "ttl" ∷ "pttl"
      ∷ "exists" ∷ "llen" ∷ "scard" ∷ "zcard" ∷ "hlen" ∷ "strlen" ∷ "xinfo" ∷ "lpos" ∷ "randomkey"
      ∷ []);
  denied_sequences =
      (bytes "config" ∷ bytes "set" ∷ [])
      ∷ (bytes "config" ∷ bytes "rewrite" ∷ [])
      ∷ (bytes "config" ∷ bytes "resetstat" ∷ [])
      ∷ (bytes "client" ∷ bytes "kill" ∷ [])
      ∷ (bytes "client" ∷ bytes "pause" ∷ [])
      ∷ (bytes "client" ∷ bytes "unpause" ∷ [])
      ∷ (bytes "cluster" ∷ bytes "reset" ∷ [])
      ∷ (bytes "cluster" ∷ bytes "forget" ∷ [])
      ∷ (bytes "cluster" ∷ bytes "failover" ∷ [])
      ∷ (bytes "cluster" ∷ bytes "setslot" ∷ [])
      ∷ (bytes "cluster" ∷ bytes "addslots" ∷ [])
      ∷ (bytes "cluster" ∷ bytes "delslots" ∷ [])
      ∷ (bytes "cluster" ∷ bytes "meet" ∷ [])
      ∷ (bytes "cluster" ∷ bytes "replicate" ∷ [])
      ∷ (bytes "acl" ∷ bytes "setuser" ∷ [])
      ∷ (bytes "acl" ∷ bytes "deluser" ∷ [])
      ∷ (bytes "acl" ∷ bytes "load" ∷ [])
      ∷ (bytes "acl" ∷ bytes "save" ∷ [])
      ∷ (bytes "slowlog" ∷ bytes "reset" ∷ [])
      ∷ (bytes "latency" ∷ bytes "reset" ∷ [])
      ∷ (bytes "memory" ∷ bytes "purge" ∷ [])
      ∷ [];
  value_allow_list = [];
}

unfoldable pub mongosh_rule : CommandRule
unfolding eval_patterns
mongosh_rule = record {
  binary = bytes "mongosh";
  description = bytes "MongoDB read-only inspection";
  flags_with_value = map bytes (
      "--host" ∷ "--port" ∷ "--username" ∷ "-u" ∷ "--authenticationDatabase" ∷ "--eval" ∷ "--tls"
      ∷ "--tlsCAFile" ∷ []);
  allowed_verbs = [];
  denied_sequences = [];
  value_allow_list = (bytes "--eval", eval_patterns) ∷ [];
}

unfoldable pub kafka_topics_rule : CommandRule
kafka_topics_rule = record {
  binary = bytes "kafka-topics.sh";
  description = bytes "Kafka topic inspection";
  flags_with_value = map bytes ("--bootstrap-server" ∷ "--topic" ∷ "--command-config" ∷ []);
  allowed_verbs = map bytes ("--list" ∷ "--describe" ∷ []);
  denied_sequences = [];
  value_allow_list = [];
}

unfoldable pub kafka_consumer_groups_rule : CommandRule
kafka_consumer_groups_rule = record {
  binary = bytes "kafka-consumer-groups.sh";
  description = bytes "Kafka consumer-group inspection";
  flags_with_value = map bytes ("--bootstrap-server" ∷ "--group" ∷ "--command-config" ∷ []);
  allowed_verbs = map bytes ("--list" ∷ "--describe" ∷ []);
  denied_sequences = [];
  value_allow_list = [];
}

unfoldable pub kafka_broker_api_versions_rule : CommandRule
kafka_broker_api_versions_rule = record {
  binary = bytes "kafka-broker-api-versions.sh";
  description = bytes "Kafka broker version inspection";
  flags_with_value = map bytes ("--bootstrap-server" ∷ "--command-config" ∷ []);
  allowed_verbs = [];
  denied_sequences = [];
  value_allow_list = [];
}

unfoldable pub pulsar_admin_rule : CommandRule
pulsar_admin_rule = record {
  binary = bytes "pulsar-admin";
  description = bytes "Pulsar read-only inspection";
  flags_with_value = map bytes ("--admin-url" ∷ "--auth-params" ∷ []);
  allowed_verbs =
      map bytes ("brokers" ∷ "topics" ∷ "namespaces" ∷ "tenants" ∷ "clusters" ∷ "bookies" ∷ []);
  denied_sequences =
      (bytes "topics" ∷ bytes "delete" ∷ [])
      ∷ (bytes "topics" ∷ bytes "unload" ∷ [])
      ∷ (bytes "namespaces" ∷ bytes "delete" ∷ [])
      ∷ (bytes "clusters" ∷ bytes "delete" ∷ [])
      ∷ (bytes "brokers" ∷ bytes "shutdown" ∷ [])
      ∷ [];
  value_allow_list = [];
}

unfoldable pub ps_rule : CommandRule
ps_rule = record {
  binary = bytes "ps";
  description = bytes "process listing";
  flags_with_value = [];
  allowed_verbs = [];
  denied_sequences = [];
  value_allow_list = [];
}

unfoldable pub ss_rule : CommandRule
ss_rule = record {
  binary = bytes "ss";
  description = bytes "socket listing";
  flags_with_value = [];
  allowed_verbs = [];
  denied_sequences = [];
  value_allow_list = [];
}

unfoldable pub netstat_rule : CommandRule
netstat_rule = record {
  binary = bytes "netstat";
  description = bytes "socket listing (legacy)";
  flags_with_value = [];
  allowed_verbs = [];
  denied_sequences = [];
  value_allow_list = [];
}

unfoldable pub df_rule : CommandRule
df_rule = record {
  binary = bytes "df";
  description = bytes "filesystem usage";
  flags_with_value = [];
  allowed_verbs = [];
  denied_sequences = [];
  value_allow_list = [];
}

unfoldable pub free_rule : CommandRule
free_rule = record {
  binary = bytes "free";
  description = bytes "memory usage";
  flags_with_value = [];
  allowed_verbs = [];
  denied_sequences = [];
  value_allow_list = [];
}

unfoldable pub uptime_rule : CommandRule
uptime_rule = record {
  binary = bytes "uptime";
  description = bytes "host uptime";
  flags_with_value = [];
  allowed_verbs = [];
  denied_sequences = [];
  value_allow_list = [];
}

unfoldable pub uname_rule : CommandRule
uname_rule = record {
  binary = bytes "uname";
  description = bytes "kernel identification";
  flags_with_value = [];
  allowed_verbs = [];
  denied_sequences = [];
  value_allow_list = [];
}

unfoldable pub nproc_rule : CommandRule
nproc_rule = record {
  binary = bytes "nproc";
  description = bytes "CPU count";
  flags_with_value = [];
  allowed_verbs = [];
  denied_sequences = [];
  value_allow_list = [];
}

unfoldable pub git_rule : CommandRule
git_rule = record {
  binary = bytes "git";
  description = bytes "source acquisition into the local cache";
  flags_with_value =
      map bytes ("-C" ∷ "--git-dir" ∷ "--work-tree" ∷ "--depth" ∷ "--branch" ∷ "-c" ∷ []);
  allowed_verbs = map bytes (
      "clone" ∷ "fetch" ∷ "ls-remote" ∷ "log" ∷ "show" ∷ "grep" ∷ "rev-parse" ∷ "cat-file"
      ∷ "describe" ∷ "config" ∷ "status" ∷ "ls-files" ∷ []);
  denied_sequences =
      (bytes "config" ∷ bytes "--global" ∷ []) ∷ (bytes "config" ∷ bytes "--system" ∷ []) ∷ [];
  value_allow_list = [];
}

unfoldable pub default_command_rules : List CommandRule
unfolding redis_cli_rule mongosh_rule kafka_topics_rule kafka_consumer_groups_rule
    kafka_broker_api_versions_rule pulsar_admin_rule ps_rule ss_rule netstat_rule df_rule free_rule
    uptime_rule uname_rule nproc_rule git_rule
default_command_rules =
    redis_cli_rule ∷ mongosh_rule ∷ kafka_topics_rule ∷ kafka_consumer_groups_rule
    ∷ kafka_broker_api_versions_rule ∷ pulsar_admin_rule ∷ ps_rule ∷ ss_rule ∷ netstat_rule
    ∷ df_rule ∷ free_rule ∷ uptime_rule ∷ uname_rule ∷ nproc_rule ∷ git_rule ∷ []
