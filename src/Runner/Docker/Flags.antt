-- ===== src/Runner/Docker/Flags.antt =====
-- KnownDockerFlags and KnownDockerBooleanFlags of runner/docker_parser.go.
use mcptrust.Base.{List, [], ◌∷◌, Bytes, codes}

unfoldable pub known_docker_flags : List Bytes
known_docker_flags =
    codes "-e"
    ∷ codes "--env"
    ∷ codes "--env-file"
    ∷ codes "-v"
    ∷ codes "--volume"
    ∷ codes "--mount"
    ∷ codes "--tmpfs"
    ∷ codes "-p"
    ∷ codes "--publish"
    ∷ codes "--network"
    ∷ codes "--hostname"
    ∷ codes "-h"
    ∷ codes "--add-host"
    ∷ codes "--dns"
    ∷ codes "--dns-search"
    ∷ codes "--expose"
    ∷ codes "--ip"
    ∷ codes "--mac-address"
    ∷ codes "--name"
    ∷ codes "-l"
    ∷ codes "--label"
    ∷ codes "--label-file"
    ∷ codes "-u"
    ∷ codes "--user"
    ∷ codes "-w"
    ∷ codes "--workdir"
    ∷ codes "--group-add"
    ∷ codes "--cpus"
    ∷ codes "--cpu-shares"
    ∷ codes "-c"
    ∷ codes "--memory"
    ∷ codes "-m"
    ∷ codes "--memory-swap"
    ∷ codes "--pids-limit"
    ∷ codes "--ulimit"
    ∷ codes "--device"
    ∷ codes "--blkio-weight"
    ∷ codes "--cap-add"
    ∷ codes "--cap-drop"
    ∷ codes "--security-opt"
    ∷ codes "--userns"
    ∷ codes "--cgroupns"
    ∷ codes "--entrypoint"
    ∷ codes "--restart"
    ∷ codes "--stop-signal"
    ∷ codes "--stop-timeout"
    ∷ codes "--platform"
    ∷ codes "--pull"
    ∷ codes "--runtime"
    ∷ codes "--pid"
    ∷ codes "--ipc"
    ∷ codes "--uts"
    ∷ codes "--log-driver"
    ∷ codes "--log-opt"
    ∷ codes "--health-cmd"
    ∷ codes "--health-interval"
    ∷ codes "--health-retries"
    ∷ codes "--health-timeout"
    ∷ codes "--health-start-period"
    ∷ codes "--storage-opt"
    ∷ codes "--shm-size"
    ∷ codes "--cidfile"
    ∷ codes "--init-path"
    ∷ codes "--isolation"
    ∷ []

unfoldable pub known_docker_boolean_flags : List Bytes
known_docker_boolean_flags =
    codes "--rm"
    ∷ codes "-d"
    ∷ codes "--detach"
    ∷ codes "-i"
    ∷ codes "--interactive"
    ∷ codes "-t"
    ∷ codes "--tty"
    ∷ codes "--privileged"
    ∷ codes "--read-only"
    ∷ codes "--init"
    ∷ codes "--sig-proxy"
    ∷ codes "--no-healthcheck"
    ∷ codes "--oom-kill-disable"
    ∷ codes "-P"
    ∷ codes "--publish-all"
    ∷ []
