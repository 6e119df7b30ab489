-- ===== src/Desired/PreStop.antt =====
-- controllers/preStopScript.go: the script that the workers run before they stop.
use presto_on_k8s_operator.Prelude.{[], ◌∷◌}
use presto_on_k8s_operator.Strings.{write_lines}
use presto_on_k8s_operator.Text.{Text, codes}

-- The lines of the script. Each ends with a line feed.
unfoldable pub pre_stop_script : Text
pre_stop_script = write_lines (
    codes ""
    ∷ codes "#!/bin/bash"
    ∷ codes "# This works for worker only. Coordinator doesn't support graceful shutdown."
    ∷ codes "# This script will block until the server has actually shutdown."
    ∷ codes "set -x"
    ∷ codes ""
    ∷ codes
        "http_port=\"$(cat /usr/lib/presto/etc/config.properties | grep 'http-server.http.port' | sed 's/^.*=\\(.*\\)$/\\1/')\""
    ∷ codes
        "https_port=\"$(cat /usr/lib/presto/etc/config.properties | grep 'http-server.https.port' | sed 's/^.*=\\(.*\\)$/\\1/')\""
    ∷ codes ""
    ∷ codes "if [ -n \"$http_port\" ] ; then"
    ∷ codes
        "    res=$(curl -s -o /dev/null -w \"%{http_code}\"  -XPUT --data '\"SHUTTING_DOWN\"' -H \"Content-type: application/json\" http://localhost:${http_port}/v1/info/state)"
    ∷ codes "fi"
    ∷ codes ""
    ∷ codes "if [ -z \"$res\" -o \"$res\" != \"200\" ] && [ -n \"$https_port\" ]; then"
    ∷ codes
        "    res=$(curl -k -s -o /dev/null -w \"%{http_code}\"  -XPUT --data '\"SHUTTING_DOWN\"' -H \"Content-type: application/json\" https://localhost:${https_port}/v1/info/state)"
    ∷ codes "fi"
    ∷ codes ""
    ∷ codes "if [ -z \"$res\" -o \"$res\" != \"200\" ] ; then"
    ∷ codes "  # Failed to send the shutdown request."
    ∷ codes "  exit -1"
    ∷ codes "else"
    ∷ codes "  # Server is shutting down. Block until the server is actually down."
    ∷ codes "  while curl http://localhost:${http_port}/v1/info/state; do"
    ∷ codes "    sleep 1"
    ∷ codes "  done"
    ∷ codes "fi"
    ∷ [])
